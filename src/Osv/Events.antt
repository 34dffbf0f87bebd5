-- ===== src/Osv/Events.antt =====
-- internal/report/osv_versions.go: events, ranges and their parsing.
use lopper.Prelude.{
  Bool, true, false, not, ◌&&◌, ◌||◌, List, [], ◌∷◌, ◌++◌, Option, none, some, Ordering, lt, eq, gt,
  ◌==◌, any, if◌then◌else◌,
}
use lopper.Text.{Str, codes, str_eq, trim_space}
use lopper.Semver.{Semver, compare_semantic_versions}

-- `VulnerabilityVersionEvent` and `VulnerabilityVersionRange`.
pub record VersionEvent : Type 0 where
  pub introduced : Str
  pub fixed : Str
  pub last_affected : Str
  pub limit : Str

pub record VersionRange : Type 0 where
  pub range_type : Str
  pub events : List VersionEvent

-- The constants `osvEventIntroduced` … `osvEventLimit`.
pub data EventKind : Type 0 where
  introduced fixed last_affected limit : EventKind

-- `semanticVersionEvent`; its zero value, with the empty kind, is `none`.
pub record SemanticEvent : Type 0 where
  pub kind : EventKind
  pub version : Str

-- The loop of `vulnerabilityVersionEventKind`: exactly one candidate may have a version.
unfoldable pub select_event : Option SemanticEvent → List SemanticEvent → Option SemanticEvent
select_event selected [] = selected
select_event selected (candidate ∷ rest) =
    let skip = select_event selected rest in
    let take_it = select_event (some candidate) rest in
    if str_eq candidate.version []
    then skip
    else elim selected [ some other ↦ none | none ↦ take_it ]

-- `vulnerabilityVersionEventKind`.
unfoldable pub event_kind : VersionEvent → Option SemanticEvent
unfolding select_event
event_kind event = select_event none (
    record { kind = introduced; version = trim_space event.introduced }
    ∷ record { kind = fixed; version = trim_space event.fixed }
    ∷ record { kind = last_affected; version = trim_space event.last_affected }
    ∷ record { kind = limit; version = trim_space event.limit }
    ∷ [])

-- `strings.Contains(version, osvLimitInfinityMarker)`.
abbrev pub has_infinity_marker : Str → Bool
has_infinity_marker version = any (λ c. c == b'*') version

abbrev pub is_from_start : Str → Bool
is_from_start version = str_eq version (codes "0")

abbrev pub is_some : {A : Type 0} → Option A → Bool
is_some none = false
is_some (some _) = true

-- The flags and lists that the loop of `parseSemanticVersionRange` keeps.
pub record RangeState : Type 0 where
  pub timeline : List SemanticEvent
  pub limits : List Str
  pub seen_introduced : Bool
  pub seen_fixed : Bool
  pub seen_last_affected : Bool

abbrev pub range_start : RangeState
range_start = record {
  timeline = [];
  limits = [];
  seen_introduced = false;
  seen_fixed = false;
  seen_last_affected = false;
}

-- The `switch` of that loop, and the `append` that `continue` skips for a limit.
unfoldable pub add_event : RangeState → EventKind → Str → RangeState
add_event s introduced version = record s {
  timeline = s.timeline ++ record { kind = introduced; version = version } ∷ [];
  seen_introduced = true;
}
add_event s fixed version = record s {
  timeline = s.timeline ++ record { kind = fixed; version = version } ∷ [];
  seen_fixed = true;
}
add_event s last_affected version = record s {
  timeline = s.timeline ++ record { kind = last_affected; version = version } ∷ [];
  seen_last_affected = true;
}
add_event s limit version = record s { limits = s.limits ++ version ∷ [] }

module _ (semver : Semver) where
  -- `validSemanticRangeVersion`.
  unfoldable pub valid_range_version : EventKind → Str → Bool
  valid_range_version limit version =
      has_infinity_marker version || is_some (compare_semantic_versions semver version version)
  valid_range_version introduced version =
      is_from_start version || is_some (compare_semantic_versions semver version version)
  valid_range_version kind version = is_some (compare_semantic_versions semver version version)

  -- An event of a valid kind and version.
  unfoldable pub read_event : VersionEvent → Option SemanticEvent
  read_event event = elim (event_kind event) [
    | none ↦ none
    | some e ↦ if valid_range_version e.kind e.version then some e else none
  ]

  unfoldable pub parse_events : RangeState → List VersionEvent → Option RangeState
  unfolding add_event
  parse_events s [] = some s
  parse_events s (event ∷ rest) = elim (read_event event) [
    | none ↦ none
    | some e ↦ parse_events (add_event s e.kind e.version) rest
  ]

  accept_range : RangeState → Option (List SemanticEvent × List Str)
  accept_range s =
      if not s.seen_introduced || s.seen_fixed && s.seen_last_affected
      then none
      else some (s.timeline, s.limits)

  -- `parseSemanticVersionRange`.
  unfoldable pub parse_range : List VersionEvent → Option (List SemanticEvent × List Str)
  unfolding parse_events accept_range
  parse_range events = elim (parse_events range_start events) [
    | none ↦ none
    | some s ↦ accept_range s
  ]

  -- `compareOSVSemanticVersions` of two trimmed texts.
  unfoldable pub compare_trimmed : Str → Str → Option Ordering
  compare_trimmed left right =
      if str_eq left right
      then some eq
      else if is_from_start left
      then some lt
      else if is_from_start right
      then some gt
      else compare_semantic_versions semver left right

  -- `compareOSVSemanticVersions`.
  unfoldable pub compare_osv : Str → Str → Option Ordering
  unfolding compare_trimmed
  compare_osv left right = compare_trimmed (trim_space left) (trim_space right)
