-- ===== src/Baseline/Bridges.antt =====
-- internal/report/baseline_diff.go: bridges, by which a dependency that one report identifies and the
-- other only names is paired all the same. A loop over a map goes by the order of its keys.
use lopper.Prelude.{
  ℕ, ◌+◌, Bool, true, false, ◌&&◌, ◌||◌, List, [], ◌∷◌, ◌++◌, Option, none, some, any, length, ltb,
  ◌==◌, if◌then◌else◌,
}
use lopper.Prelude.Result.{Result, ok, err, ◌>>=◌}
use lopper.Prelude.Sort.{sort_by, is_lt}
use lopper.Text.{Str, str_eq, trim_space, compare_str}
use lopper.Dict.{Dict, lookup, insert}
use lopper.Float.{Float64}
use lopper.Model.Dependency.{DependencyReport}
use lopper.Purl.{Url}
use lopper.Baseline.Keys.{has_stable_identity}
use lopper.Baseline.Pairing.{
  items_at, sorted_keys, Pair, index_instances, pair_instances_for_key, pair_instances_unbridged,
}

-- `ErrBaselineAmbiguousIdentityBridge`, at a raw key.
pub data BridgeError : Type 0 where
  ambiguous_bridge : Str → BridgeError

-- `dependencyRawKeyGroup`, whose raw key is that of the map.
pub record RawKeyGroup : Type 0 where
  pub anonymous_keys : List Str
  pub anonymous_count : ℕ
  pub stable_keys : List Str
  pub stable_count : ℕ

abbrev empty_group : RawKeyGroup
empty_group = record {
  anonymous_keys = [];
  anonymous_count = 0;
  stable_keys = [];
  stable_count = 0;
}

abbrev group_at : Option RawKeyGroup → RawKeyGroup
group_at none = empty_group
group_at (some group) = group

-- `dependencyIdentityBridge`.
pub record Bridge : Type 0 where
  pub raw_key : Str
  pub current_key : Str
  pub baseline_key : Str

-- `singleDependencyIdentityBridge`; more keys than one have more dependencies than one.
unfoldable pub single_bridge :
    Str → List Str → ℕ → List Str → ℕ → Result BridgeError (Option Bridge)
single_bridge raw_key (c ∷ []) current_count (b ∷ []) baseline_count =
    if current_count == 1 && baseline_count == 1
    then ok (some (record { raw_key = raw_key; current_key = c; baseline_key = b }))
    else err (ambiguous_bridge raw_key)
single_bridge raw_key current current_count baseline baseline_count = err (ambiguous_bridge raw_key)

-- `planDependencyIdentityBridge`.
unfoldable pub plan_bridge : Str → RawKeyGroup → RawKeyGroup → Result BridgeError (Option Bridge)
plan_bridge raw_key current baseline =
    if ltb 0 current.anonymous_count && ltb 0 baseline.stable_count
    then (if ltb 0 current.stable_count || ltb 0 baseline.anonymous_count
        then err (ambiguous_bridge raw_key)
        else single_bridge raw_key current.anonymous_keys current.anonymous_count
            baseline.stable_keys baseline.stable_count)
    else if ltb 0 baseline.anonymous_count && ltb 0 current.stable_count
    then (if ltb 0 baseline.stable_count || ltb 0 current.anonymous_count
        then err (ambiguous_bridge raw_key)
        else single_bridge raw_key current.stable_keys current.stable_count baseline.anonymous_keys
            baseline.anonymous_count)
    else ok none

abbrev with_bridge : Option Bridge → List Bridge → List Bridge
with_bridge none bridges = bridges
with_bridge (some bridge) bridges = bridge ∷ bridges

-- The loop of `planDependencyIdentityBridges`.
unfoldable pub plan_bridges :
    Dict RawKeyGroup → Dict RawKeyGroup → List Str → Result BridgeError (List Bridge)
plan_bridges current baseline [] = ok []
plan_bridges current baseline (key ∷ rest) = do
  bridge ← plan_bridge key (group_at (lookup key current)) (group_at (lookup key baseline))
  bridges ← plan_bridges current baseline rest
  ok (with_bridge bridge bridges)

-- `bridgedKeys`.
abbrev is_bridged : List Bridge → Str → Bool
is_bridged bridges key =
    any (λ bridge. str_eq bridge.current_key key || str_eq bridge.baseline_key key) bridges

module _ (float : Float64) (url : Url) (format_float : float.Carrier → Str) where
  abbrev Instances : Type 0
  Instances = Dict (List (DependencyReport float))

  -- `dependencyRawKey`.
  unfoldable pub dependency_raw_key : DependencyReport float → Str
  dependency_raw_key dep = trim_space dep.language ++ 0 ∷ trim_space dep.name

  -- One more key with its dependencies, the first of which says what kind they are.
  abbrev with_instances : Bool → Str → ℕ → RawKeyGroup → RawKeyGroup
  with_instances true key count group = record group {
    stable_keys = group.stable_keys ++ key ∷ [];
    stable_count = group.stable_count + count;
  }
  with_instances false key count group = record group {
    anonymous_keys = group.anonymous_keys ++ key ∷ [];
    anonymous_count = group.anonymous_count + count;
  }

  -- The loop of `indexDependencyRawGroups`.
  unfoldable pub raw_groups_from : Dict RawKeyGroup → Instances → Dict RawKeyGroup
  raw_groups_from groups [] = groups
  raw_groups_from groups ((key, []) ∷ instances) = raw_groups_from groups instances
  raw_groups_from groups ((key, dep ∷ deps) ∷ instances) =
      let raw_key = dependency_raw_key dep in
      raw_groups_from
        (insert raw_key
          (with_instances (has_stable_identity float url dep) key (length (dep ∷ deps))
            (group_at (lookup raw_key groups)))
          groups)
        instances

  -- `dependencyPairingGroup`.
  pub record PairingGroup : Type 0 where
    pub key : Str
    pub current : List (DependencyReport float)
    pub baseline : List (DependencyReport float)
    pub is_bridge : Bool

  unfoldable pub bridge_groups : Instances → Instances → List Bridge → List PairingGroup
  bridge_groups current baseline [] = []
  bridge_groups current baseline (bridge ∷ bridges) =
      record {
        key = bridge.raw_key;
        current = items_at (lookup bridge.current_key current);
        baseline = items_at (lookup bridge.baseline_key baseline);
        is_bridge = true;
      }
      ∷ bridge_groups current baseline bridges

  unfoldable pub plain_groups : Instances → Instances → List Bridge → List Str → List PairingGroup
  plain_groups current baseline bridges [] = []
  plain_groups current baseline bridges (key ∷ rest) =
      let groups = plain_groups current baseline bridges rest in
      if is_bridged bridges key
      then groups
      else record {
        key = key;
        current = items_at (lookup key current);
        baseline = items_at (lookup key baseline);
        is_bridge = false;
      }
        ∷ groups

  -- `planCheckedDependencyPairingGroups`.
  unfoldable pub plan_checked_groups :
      Instances → Instances → Result BridgeError (List PairingGroup)
  plan_checked_groups current baseline = do
    let current_raw = raw_groups_from [] current
    let baseline_raw = raw_groups_from [] baseline
    bridges ← plan_bridges current_raw baseline_raw (sorted_keys current_raw baseline_raw)
    ok (
        sort_by (λ a b. is_lt (compare_str a.key b.key))
          (bridge_groups current baseline bridges
            ++ plain_groups current baseline bridges (sorted_keys current baseline)))

  -- The pair of a bridge: its groups have one dependency each.
  abbrev bridge_pair :
      Str
      → List (DependencyReport float)
      → List (DependencyReport float)
      → List (Pair float url format_float)
  bridge_pair key (c ∷ current) (b ∷ baseline) =
      record {
        key = key;
        current = some (record { ordinal = 0; dep = c });
        baseline = some (record { ordinal = 0; dep = b });
      }
      ∷ []
  bridge_pair key current baseline = []

  -- The loop of `PairDependencyInstancesChecked`.
  unfoldable pub pairs_of_groups : List PairingGroup → List (Pair float url format_float)
  pairs_of_groups [] = []
  pairs_of_groups (group ∷ groups) =
      (if group.is_bridge
        then bridge_pair group.key group.current group.baseline
        else pair_instances_for_key float url format_float group.key group.current group.baseline)
      ++ pairs_of_groups groups

  -- `PairDependencyInstancesChecked`.
  unfoldable pub pair_instances_checked :
      List (DependencyReport float)
      → List (DependencyReport float)
      → Result BridgeError (List (Pair float url format_float))
  pair_instances_checked current baseline = do
    groups ←
        plan_checked_groups (index_instances float url format_float current)
          (index_instances float url format_float baseline)
    ok (pairs_of_groups groups)

  -- `PairDependencyInstances`: all errors of the checked pairing are about bridges.
  unfoldable pub pair_instances :
      List (DependencyReport float)
      → List (DependencyReport float)
      → List (Pair float url format_float)
  pair_instances current baseline = elim (pair_instances_checked current baseline) [
    | ok pairs ↦ pairs
    | err failure ↦ pair_instances_unbridged float url format_float current baseline
  ]
