-- ===== src/Osv/Match.antt =====
-- internal/report/osv_versions.go: the evaluation of ranges and advisories.
use lopper.Prelude.{
  Bool, true, false, not, ◌&&◌, ◌||◌, List, [], ◌∷◌, Option, none, some, Ordering, lt, eq, gt, any,
  if◌then◌else◌,
}
use lopper.Prelude.Sort.{is_lt, sort_by}
use lopper.Text.{Str, codes, str_eq, trim_space, to_upper}
use lopper.Semver.{Semver, compare_semantic_versions, or_zero}
use lopper.Osv.Events.{
  VersionEvent, VersionRange, EventKind, introduced, fixed, last_affected, limit, SemanticEvent,
  has_infinity_marker, parse_range, read_event, compare_osv, is_some,
}

-- `vulnerabilityVersionMatch`.
pub data VersionMatch : Type 0 where
  unaffected affected unevaluable : VersionMatch

-- `VulnerabilityAdvisory` of internal/report/vulnerability.go.
pub record Advisory : Type 0 where
  pub id : Str
  pub package_name : Str
  pub ecosystem : Str
  pub severity : Str
  pub fixed_version : Str
  pub source : Str
  pub aliases : List Str
  pub affected_versions : List Str
  pub version_ranges : List VersionRange

is_nonempty : {A : Type 0} → List A → Bool
is_nonempty [] = false
is_nonempty (_ ∷ _) = true

-- `advisoryHasOSVVersionMetadata`.
unfoldable pub has_osv_version_metadata : Advisory → Bool
unfolding is_nonempty
has_osv_version_metadata advisory =
    is_nonempty advisory.affected_versions || is_nonempty advisory.version_ranges

abbrev pub affected_if : Bool → VersionMatch
affected_if true = affected
affected_if false = unaffected

abbrev pub is_ge : Ordering → Bool
is_ge o = not (is_lt o)

abbrev pub is_gt : Ordering → Bool
is_gt gt = true
is_gt eq = false
is_gt lt = false

module _ (semver : Semver) where
  -- The comparison where the code drops the second result.
  abbrev pub osv_order : Str → Str → Ordering
  osv_order left right = or_zero (compare_osv semver left right)

  -- `versionBeforeAnyLimit`.
  before_some_limit : Str → List Str → Bool
  before_some_limit installed [] = false
  before_some_limit installed (bound ∷ limits) =
      has_infinity_marker bound
      || is_lt (or_zero (compare_semantic_versions semver installed bound))
      || before_some_limit installed limits

  unfoldable pub before_any_limit : Str → List Str → Bool
  unfolding before_some_limit
  before_any_limit installed [] = true
  before_any_limit installed (bound ∷ limits) = before_some_limit installed (bound ∷ limits)

  -- One round of the loop of `semanticTimelineAffectsVersion`.
  unfoldable pub apply_event : Str → Bool → EventKind → Str → Bool
  apply_event installed was introduced version =
      if is_ge (osv_order installed version) then true else was
  apply_event installed was fixed version =
      if is_ge (osv_order installed version) then false else was
  apply_event installed was last_affected version =
      if is_gt (osv_order installed version) then false else was
  apply_event installed was limit version = was

  unfoldable pub timeline_from : Bool → List SemanticEvent → Str → Bool
  timeline_from was [] installed = was
  timeline_from was (event ∷ timeline) installed =
      timeline_from (apply_event installed was event.kind event.version) timeline installed

  -- `semanticTimelineAffectsVersion`.
  unfoldable pub timeline_affects : List SemanticEvent → Str → Bool
  unfolding timeline_from apply_event
  timeline_affects timeline installed = timeline_from false timeline installed

  abbrev pub earlier_event : SemanticEvent → SemanticEvent → Bool
  earlier_event a b = is_lt (osv_order a.version b.version)

  -- The part of `semanticRangeVersionMatch` for the type SEMVER.
  unfoldable pub semver_range_match : List VersionEvent → Str → VersionMatch
  unfolding before_any_limit timeline_affects sort_by
  semver_range_match events installed = elim (parse_range semver events) [
    | none ↦ unevaluable
    | some (timeline, limits) ↦
        if not (before_any_limit installed limits)
        then unaffected
        else affected_if (timeline_affects (sort_by earlier_event timeline) installed)
  ]

  -- The loop and the test of `simpleSemanticEcosystemBounds`. The empty text stands for a bound that
  -- was not seen.
  abbrev bounds_from : Str → Str → List VersionEvent → Option (Str × Str)
  bounds_from lower upper [] =
      if not (str_eq lower [])
        && not (str_eq upper [])
        && is_some (compare_osv semver lower upper)
        && is_lt (osv_order lower upper)
      then some (lower, upper)
      else none
  bounds_from lower upper (event ∷ rest) = elim (read_event semver event) [
    | none ↦ none
    | some e ↦ elim e.kind [
      | introduced ↦ if str_eq lower [] then bounds_from e.version upper rest else none
      | fixed ↦ if str_eq upper [] then bounds_from lower e.version rest else none
      | _ ↦ none
    ]
  ]

  -- `simpleSemanticEcosystemBounds`.
  unfoldable pub ecosystem_bounds : List VersionEvent → Option (Str × Str)
  ecosystem_bounds (first ∷ second ∷ []) = bounds_from [] [] (first ∷ second ∷ [])
  ecosystem_bounds _ = none

  -- `simpleEcosystemRangeVersionMatch`.
  unfoldable pub ecosystem_range_match : List VersionEvent → Str → VersionMatch
  unfolding ecosystem_bounds
  ecosystem_range_match events installed = elim (ecosystem_bounds events) [
    | none ↦ unevaluable
    | some (lower, upper) ↦
        affected_if (is_ge (osv_order installed lower) && is_lt (osv_order installed upper))
  ]

  -- `semanticRangeVersionMatch` behind its tests of the range's type.
  abbrev range_match_of : Bool → VersionRange → Str → VersionMatch
  range_match_of is_ecosystem range installed =
      if not (is_some (compare_semantic_versions semver installed installed))
      then unevaluable
      else if is_ecosystem
      then ecosystem_range_match range.events installed
      else semver_range_match range.events installed

  -- `semanticRangeVersionMatch`.
  unfoldable pub range_match : VersionRange → Str → VersionMatch
  unfolding to_upper trim_space str_eq
  range_match range installed =
      let range_type = to_upper (trim_space range.range_type) in
      if not (str_eq range_type (codes "SEMVER")) && not (str_eq range_type (codes "ECOSYSTEM"))
      then unevaluable
      else range_match_of (str_eq range_type (codes "ECOSYSTEM")) range installed

  -- `fixedVersionMatch`.
  unfoldable pub fixed_version_match : Str → Str → VersionMatch
  unfolding str_eq
  fixed_version_match fixed_version installed_version =
      let wanted = trim_space fixed_version in
      let installed = trim_space installed_version in
      if str_eq wanted []
      then unevaluable
      else if str_eq installed []
      then unevaluable
      else elim (compare_semantic_versions semver installed wanted) [
        | none ↦ unevaluable
        | some o ↦ affected_if (is_lt o)
      ]

  -- The loop over the ranges in `advisoryVersionMatch`, and what follows it.
  unfoldable pub ranges_match : Bool → List VersionRange → Str → VersionMatch
  ranges_match saw_unevaluable [] installed = if saw_unevaluable then unevaluable else unaffected
  ranges_match saw_unevaluable (range ∷ ranges) installed = elim (range_match range installed) [
    | affected ↦ affected
    | unevaluable ↦ ranges_match true ranges installed
    | unaffected ↦ ranges_match saw_unevaluable ranges installed
  ]

  -- `advisoryVersionMatch`.
  unfoldable pub advisory_version_match : Advisory → Str → VersionMatch
  advisory_version_match advisory installed_version =
      let installed = trim_space installed_version in
      if not (has_osv_version_metadata advisory)
      then fixed_version_match advisory.fixed_version installed_version
      else if str_eq installed []
      then unevaluable
      else if any (λ version. str_eq installed (trim_space version)) advisory.affected_versions
      then affected
      else ranges_match false advisory.version_ranges installed
