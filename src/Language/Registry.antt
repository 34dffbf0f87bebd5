-- ===== src/Language/Registry.antt =====
-- internal/language/registry.go: registration and the choice of adapters. `filepath.Abs` is a
-- parameter: it gives a path, or fails.
use lopper.Prelude.{
  Bool, true, false, not, ◌&&◌, ◌||◌, List, [], ◌∷◌, Option, none, some, if◌then◌else◌, any,
}
use lopper.Prelude.Int.{ℤ, pos, ltb_ℤ, eqb_ℤ}
use lopper.Prelude.Result.{ok, err, ◌>>=◌, ◌>>◌}
use lopper.Prelude.Sort.{sort_by, is_lt}
use lopper.Text.{Str, codes, str_eq, trim_space, to_lower, compare_str}
use lopper.Dict.{Dict, lookup, insert, has_key, values}
use lopper.Language.Adapter.{
  nil_adapter, empty_id, already_registered, unknown_language, no_match, multiple_languages,
  Checked, Detection, Adapter, Candidate,
}

-- The map of `Registry`.
abbrev pub Adapters : Type 0
Adapters = Dict Adapter

-- `normalizeID`.
unfoldable pub normalize_id : Str → Str
normalize_id value = to_lower (trim_space value)

-- The first loop of `Register`: the error, if there is one.
unfoldable pub check_ids : Adapters → List Str → Checked (Unit {0})
check_ids adapters [] = ok tt
check_ids adapters (id ∷ ids) =
    let rest = check_ids adapters ids in
    if str_eq (normalize_id id) []
    then err empty_id
    else if has_key (normalize_id id) adapters
    then err (already_registered id)
    else rest

-- The second loop.
unfoldable pub register_ids : Adapter → List Str → Adapters → Adapters
register_ids adapter [] adapters = adapters
register_ids adapter (id ∷ ids) adapters =
    register_ids adapter ids (insert (normalize_id id) adapter adapters)

-- `Register` of a registry that is not nil.
unfoldable pub register : Option Adapter → Adapters → Checked Adapters
register none adapters = err nil_adapter
register (some adapter) adapters = do
  check_ids adapters (adapter.id ∷ adapter.aliases)
  ok (register_ids adapter (adapter.id ∷ adapter.aliases) adapters)

-- `AdapterFilter`, and `adapterAllowed` of an adapter that is not nil.
abbrev pub adapter_allowed : Option (Adapter → Bool) → Adapter → Bool
adapter_allowed none adapter = true
adapter_allowed (some filter) adapter = filter adapter

-- `clampConfidence`.
unfoldable pub clamp_confidence : ℤ → ℤ
clamp_confidence value =
    if ltb_ℤ value (pos 0) then pos 0 else if ltb_ℤ (pos 100) value then pos 100 else value

-- Adapters of one ID count once: `seen` holds the IDs so far.
abbrev pub is_seen : Adapter → List Str → Bool
is_seen adapter seen = any (λ id. str_eq id adapter.id) seen

-- The order of `detectMatches`: by confidence, the highest first, then by ID.
unfoldable pub candidate_less : Candidate → Candidate → Bool
candidate_less a b =
    if eqb_ℤ a.detection.confidence b.detection.confidence
    then is_lt (compare_str a.adapter.id b.adapter.id)
    else ltb_ℤ b.detection.confidence a.detection.confidence

-- The `switch` of `resolveAuto` over the sorted matches.
unfoldable pub choose_auto : List Candidate → Checked (List Candidate)
choose_auto [] = err no_match
choose_auto (first ∷ []) = ok (first ∷ [])
choose_auto (first ∷ second ∷ rest) =
    if eqb_ℤ first.detection.confidence second.detection.confidence
    then err multiple_languages
    else ok (first ∷ [])

abbrev require_match : List Candidate → Checked (List Candidate)
require_match [] = err no_match
require_match (first ∷ rest) = ok (first ∷ rest)

abbrev first_candidate : List Candidate → Checked Adapter
first_candidate [] = err no_match
first_candidate (first ∷ rest) = ok first.adapter

-- The loop of `IDs`.
unfoldable pub ids_from : List Str → List Adapter → List Str
ids_from seen [] = []
ids_from seen (adapter ∷ adapters) =
    let skip = ids_from seen adapters in
    let keep = ids_from (adapter.id ∷ seen) adapters in
    if is_seen adapter seen then skip else adapter.id ∷ keep

-- `IDs`.
unfoldable pub ids : Adapters → List Str
ids adapters = sort_by (λ a b. is_lt (compare_str a b)) (ids_from [] (values adapters))

-- `AdapterMetadata`.
pub record AdapterMetadata : Type 0 where
  pub id : Str
  pub aliases : List Str

-- The loop of `Metadata`.
unfoldable pub metadata_from : List Str → List Adapter → List AdapterMetadata
metadata_from seen [] = []
metadata_from seen (adapter ∷ adapters) =
    let skip = metadata_from seen adapters in
    let keep = metadata_from (adapter.id ∷ seen) adapters in
    if is_seen adapter seen
    then skip
    else record { id = adapter.id; aliases = adapter.aliases } ∷ keep

-- `Metadata`.
unfoldable pub metadata : Adapters → List AdapterMetadata
metadata adapters =
    sort_by (λ a b. is_lt (compare_str a.id b.id)) (metadata_from [] (values adapters))

module _ (abs_path : Str → Option Str) where
  abbrev root_of : Str → Option Str → Str
  root_of repo_path none = repo_path
  root_of repo_path (some path) = path

  abbrev roots_of : Str → List Str → List Str
  roots_of repo_path [] =
      if str_eq repo_path [] then [] else root_of repo_path (abs_path repo_path) ∷ []
  roots_of repo_path (root ∷ roots) = root ∷ roots

  -- `normalizeDetection`.
  unfoldable pub normalize_detection : Str → Detection → Detection
  normalize_detection repo_path detection = record detection {
    confidence =
        if detection.matched && eqb_ℤ detection.confidence (pos 0)
        then pos 1
        else detection.confidence;
    roots = roots_of repo_path detection.roots;
  }

  abbrev unmatched : Detection
  unmatched = record { matched = false; confidence = pos 0; roots = [] }

  -- `detectAdapter`.
  unfoldable pub detect_adapter : Adapter → Str → Checked Detection
  detect_adapter adapter repo_path = elim adapter.detect_with_confidence [
    | some detect ↦ do
      detection ← detect repo_path
      ok (
          normalize_detection repo_path
            (record detection { confidence = clamp_confidence detection.confidence }))
    | none ↦ do
      found ← adapter.detect repo_path
      ok (
          if not found
          then unmatched
          else normalize_detection repo_path
              (record { matched = true; confidence = pos 60; roots = [] }))
  ]

  -- The loop of `detectMatches`.
  unfoldable pub detect_from :
      Str → Option (Adapter → Bool) → List Str → List Adapter → Checked (List Candidate)
  detect_from repo_path filter seen [] = ok []
  detect_from repo_path filter seen (adapter ∷ adapters) =
      let skip = detect_from repo_path filter seen adapters in
      let rest = detect_from repo_path filter (adapter.id ∷ seen) adapters in
      if is_seen adapter seen
      then skip
      else if not (adapter_allowed filter adapter)
      then rest
      else do
        detection ← detect_adapter adapter repo_path
        matches ← rest
        ok (
            if detection.matched
            then record { adapter = adapter; detection = detection } ∷ matches
            else matches)

  -- `detectMatches`; the loop goes over the map's entries in the order of its keys.
  unfoldable pub detect_matches :
      Adapters → Str → Option (Adapter → Bool) → Checked (List Candidate)
  detect_matches adapters repo_path filter = do
    matches ← detect_from repo_path filter [] (values adapters)
    ok (sort_by candidate_less matches)

  -- `resolveAuto`.
  unfoldable pub resolve_auto : Adapters → Str → Option (Adapter → Bool) → Checked (List Candidate)
  resolve_auto adapters repo_path filter = do
    matches ← detect_matches adapters repo_path filter
    choose_auto matches

  -- `ResolveWithFilter` of one language's adapter.
  unfoldable pub resolve_adapter :
      Adapter → Str → Option (Adapter → Bool) → Checked (List Candidate)
  resolve_adapter adapter repo_path filter =
      if not (adapter_allowed filter adapter) then err no_match else do
        detection ← detect_adapter adapter repo_path
        ok (
            record {
              adapter = adapter;
              detection =
                  if detection.matched
                  then detection
                  else normalize_detection repo_path
                      (record { matched = true; confidence = pos 100; roots = [] });
            }
            ∷ [])

  abbrev resolve_known :
      Option Adapter → Str → Str → Option (Adapter → Bool) → Checked (List Candidate)
  resolve_known none id repo_path filter = err (unknown_language id)
  resolve_known (some adapter) id repo_path filter = resolve_adapter adapter repo_path filter

  -- `ResolveWithFilter` of a registry that is not nil.
  unfoldable pub resolve_with_filter :
      Adapters → Str → Str → Option (Adapter → Bool) → Checked (List Candidate)
  resolve_with_filter adapters repo_path language_id filter =
      let id = normalize_id language_id in
      if str_eq id [] || str_eq id (codes "auto")
      then resolve_auto adapters repo_path filter
      else if str_eq id (codes "all")
      then (detect_matches adapters repo_path filter >>= require_match)
      else resolve_known (lookup id adapters) id repo_path filter

  -- `Resolve`.
  abbrev pub resolve : Adapters → Str → Str → Checked (List Candidate)
  resolve adapters repo_path language_id = resolve_with_filter adapters repo_path language_id none

  -- `Select`.
  unfoldable pub select : Adapters → Str → Str → Checked Adapter
  select adapters repo_path language_id = do
    candidates ← resolve adapters repo_path language_id
    first_candidate candidates
