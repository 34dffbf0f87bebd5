-- ===== src/Baseline/Pairing.antt =====
-- internal/report/baseline_diff.go: the pairs of one key, and those of all keys. A dependency of the
-- sorted list is kept with its index, and where the code has a flag, an index and a dependency
-- (`HasCurrent`, `CurrentOrdinal`, `Current`), it is an option of the two.
use lopper.Prelude.{
  ℕ, ◌+◌, Bool, not, ◌&&◌, ◌||◌, List, [], ◌∷◌, ◌++◌, Option, none, some, map, any, ◌==◌,
  if◌then◌else◌,
}
use lopper.Prelude.Sort.{sort_by, is_lt}
use lopper.Prelude.Counts.{keep_if}
use lopper.Text.{Str, compare_str}
use lopper.Text.Ascending.{sort_strings}
use lopper.Dict.{Dict, lookup, insert, keys, has_key}
use lopper.Float.{Float64}
use lopper.Model.Dependency.{DependencyReport}
use lopper.Purl.{Url}
use lopper.Baseline.Keys.{
  is_nonempty, has_stable_identity, versionless_key, residual_identity_key, pairing_order_key,
}
use lopper.Baseline.Versions.{is_compatible, mutual_nearest}

-- The lists of a map of lists; a key that is missing has the empty list.
abbrev pub items_at : {A : Type 0} → Option (List A) → List A
items_at none = []
items_at (some items) = items

-- `index.instances[key] = append(index.instances[key], dep)` over a list, for the key of an item.
module _ {A : Type 0} (key : A → Str) where
  unfoldable pub group_from : Dict (List A) → List A → Dict (List A)
  group_from groups [] = groups
  group_from groups (item ∷ items) =
      group_from (insert (key item) (items_at (lookup (key item) groups) ++ item ∷ []) groups) items

-- `sortedDependencyInstanceKeys`, and the sorted set of fingerprints.
unfoldable pub sorted_keys : {A B : Type 0} → Dict A → Dict B → List Str
sorted_keys current baseline =
    sort_strings (keys current ++ keep_if (λ key. not (has_key key current)) (keys baseline))

module _ (float : Float64) (url : Url) (format_float : float.Carrier → Str) where
  -- A dependency and its index.
  pub record Slot : Type 0 where
    pub ordinal : ℕ
    pub dep : DependencyReport float

  -- `DependencyInstancePair`.
  pub record Pair : Type 0 where
    pub key : Str
    pub current : Option Slot
    pub baseline : Option Slot

  -- The dependencies with their indexes, from a first index on.
  unfoldable pub slots_from : ℕ → List (DependencyReport float) → List Slot
  slots_from n [] = []
  slots_from n (dep ∷ deps) = record { ordinal = n; dep = dep } ∷ slots_from (n + 1) deps

  -- `sortedDependenciesForPairing`.
  unfoldable pub sorted_for_pairing : List (DependencyReport float) → List (DependencyReport float)
  sorted_for_pairing deps =
      sort_by
        (λ a b. is_lt (
          compare_str (pairing_order_key float url format_float a)
            (pairing_order_key float url format_float b)))
        deps

  -- The pairs of the indexes of one fingerprint.
  unfoldable pub zip_slots : Str → List Slot → List Slot → List Pair
  zip_slots key [] baseline = []
  zip_slots key (c ∷ current) [] = []
  zip_slots key (c ∷ current) (b ∷ baseline) =
      record { key = key; current = some c; baseline = some b } ∷ zip_slots key current baseline

  -- The loop over the fingerprints in `appendMatchedDependencyPairsByKey`.
  unfoldable pub zip_groups : Str → Dict (List Slot) → Dict (List Slot) → List Str → List Pair
  zip_groups key current baseline [] = []
  zip_groups key current baseline (fingerprint ∷ fingerprints) =
      zip_slots key (items_at (lookup fingerprint current)) (items_at (lookup fingerprint baseline))
      ++ zip_groups key current baseline fingerprints

  -- `appendMatchedDependencyPairsByKey`, on the slots that are not matched.
  unfoldable pub matched_pairs :
      (DependencyReport float → Str) → Str → List Slot → List Slot → List Pair
  matched_pairs match_key key current baseline =
      let current_groups = group_from (λ slot. match_key slot.dep) [] current in
      let baseline_groups = group_from (λ slot. match_key slot.dep) [] baseline in
      zip_groups key current_groups baseline_groups (sorted_keys current_groups baseline_groups)

  abbrev pub slot_of : Option Slot → List Slot
  slot_of none = []
  slot_of (some slot) = slot ∷ []

  -- The slots on one side of the pairs.
  unfoldable pub side : (Pair → Option Slot) → List Pair → List Slot
  side choose [] = []
  side choose (pair ∷ pairs) = slot_of (choose pair) ++ side choose pairs

  abbrev pub is_matched : List Slot → Slot → Bool
  is_matched matched slot = any (λ other. other.ordinal == slot.ordinal) matched

  -- `unmatchedDependencyIndexes`: the slots whose flag is not set.
  unfoldable pub unmatched : List Slot → List Slot → List Slot
  unmatched matched slots = keep_if (λ slot. not (is_matched matched slot)) slots

  -- `splitDependencyIndexesByIdentity`.
  abbrev pub stable_slots : List Slot → List Slot
  stable_slots slots = keep_if (λ slot. has_stable_identity float url slot.dep) slots

  abbrev pub anonymous_slots : List Slot → List Slot
  anonymous_slots slots = keep_if (λ slot. not (has_stable_identity float url slot.dep)) slots

  abbrev pub current_only : Str → Slot → Pair
  current_only key c = record { key = key; current = some c; baseline = none }

  abbrev pub baseline_only : Str → Slot → Pair
  baseline_only key b = record { key = key; current = none; baseline = some b }

  abbrev deps_of : List Slot → List (DependencyReport float)
  deps_of slots = map (λ slot. slot.dep) slots

  -- Whether the first of both lists go together, in `nextStableDependencyPair`.
  unfoldable pub goes_together : Bool → Slot → List Slot → Slot → List Slot → Bool
  goes_together had_exact c current b baseline =
      is_compatible float url c.dep b.dep
      && (not had_exact
          || mutual_nearest float url c.dep b.dep (deps_of (c ∷ current)) (deps_of (b ∷ baseline)))

  abbrev pub goes_first : Slot → Slot → Bool
  goes_first c b =
      is_lt (
        compare_str (residual_identity_key float url c.dep) (residual_identity_key float url b.dep))

  -- `appendStableDependencyPairs` with `nextStableDependencyPair`.
  unfoldable pub stable_pairs : Str → Bool → List Slot → List Slot → List Pair
  stable_pairs key had_exact [] [] = []
  stable_pairs key had_exact [] (b ∷ baseline) =
      baseline_only key b ∷ stable_pairs key had_exact [] baseline
  stable_pairs key had_exact (c ∷ current) [] =
      current_only key c ∷ stable_pairs key had_exact current []
  stable_pairs key had_exact (c ∷ current) (b ∷ baseline) =
      let both = stable_pairs key had_exact current baseline in
      let after_current = stable_pairs key had_exact current (b ∷ baseline) in
      let after_baseline = stable_pairs key had_exact (c ∷ current) baseline in
      if goes_together had_exact c current b baseline
      then record { key = key; current = some c; baseline = some b } ∷ both
      else if goes_first c b
      then current_only key c ∷ after_current
      else baseline_only key b ∷ after_baseline

  -- `appendAnonymousDependencyPairs`.
  unfoldable pub anonymous_pairs : Str → List Slot → List Slot → List Pair
  anonymous_pairs key [] [] = []
  anonymous_pairs key [] (b ∷ baseline) = baseline_only key b ∷ anonymous_pairs key [] baseline
  anonymous_pairs key (c ∷ current) [] = current_only key c ∷ anonymous_pairs key current []
  anonymous_pairs key (c ∷ current) (b ∷ baseline) =
      record { key = key; current = some c; baseline = some b }
      ∷ anonymous_pairs key current baseline

  -- The two calls of `appendMatchedDependencyPairsByKey` in `pairDependencyInstancesForKey`.
  abbrev pub exact_pairs : Str → List Slot → List Slot → List Pair
  exact_pairs key current baseline =
      matched_pairs (pairing_order_key float url format_float) key current baseline

  abbrev pub residual_pairs : Str → List Slot → List Slot → List Pair
  residual_pairs key current baseline =
      matched_pairs (residual_identity_key float url) key current baseline

  -- What follows them, on the slots that are left.
  abbrev pub left_pairs : Str → Bool → List Slot → List Slot → List Pair
  left_pairs key had_exact current baseline =
      stable_pairs key had_exact (stable_slots current) (stable_slots baseline)
      ++ anonymous_pairs key (anonymous_slots current) (anonymous_slots baseline)

  -- `pairDependencyInstancesForKey` on the sorted dependencies.
  unfoldable pub pairs_of_slots : Str → List Slot → List Slot → List Pair
  pairs_of_slots key current baseline =
      let exact = exact_pairs key current baseline in
      let current' = unmatched (side (λ pair. pair.current) exact) current in
      let baseline' = unmatched (side (λ pair. pair.baseline) exact) baseline in
      let residual = residual_pairs key current' baseline' in
      exact
      ++ (residual
          ++ left_pairs key (is_nonempty exact)
              (unmatched (side (λ pair. pair.current) residual) current')
              (unmatched (side (λ pair. pair.baseline) residual) baseline'))

  -- `pairDependencyInstancesForKey`.
  unfoldable pub pair_instances_for_key :
      Str → List (DependencyReport float) → List (DependencyReport float) → List Pair
  pair_instances_for_key key current baseline =
      pairs_of_slots key (slots_from 0 (sorted_for_pairing current))
        (slots_from 0 (sorted_for_pairing baseline))

  -- `indexDependencyInstances`.
  unfoldable pub index_instances :
      List (DependencyReport float) → Dict (List (DependencyReport float))
  index_instances deps = group_from (versionless_key float url) [] deps

  -- The loop of `pairDependencyInstancesUnbridged`.
  unfoldable pub pairs_at_keys :
      Dict (List (DependencyReport float))
      → Dict (List (DependencyReport float))
      → List Str
      → List Pair
  pairs_at_keys current baseline [] = []
  pairs_at_keys current baseline (key ∷ rest) =
      pair_instances_for_key key (items_at (lookup key current)) (items_at (lookup key baseline))
      ++ pairs_at_keys current baseline rest

  -- `pairDependencyInstancesUnbridged`.
  unfoldable pub pair_instances_unbridged :
      List (DependencyReport float) → List (DependencyReport float) → List Pair
  pair_instances_unbridged current baseline =
      let current_index = index_instances current in
      let baseline_index = index_instances baseline in
      pairs_at_keys current_index baseline_index (sorted_keys current_index baseline_index)
