-- ===== src/Tests/Advisories.antt =====
-- The theorems on internal/report/osv_versions.go, with versions compared as texts.
use mathlib.Core.List.{Permᴰ}
use lopper.Prelude.{◌≡◌, refl, ◌↔◌, true, false, List, [], ◌∷◌, some, any, map}
use lopper.Text.{Str, codes, str_eq, trim_space, compare_str, compare_str-IsOrder}
use lopper.Semver.{Semver, compare_semantic_versions}
use lopper.Osv.Events.{
  VersionEvent, VersionRange, SemanticEvent, introduced, fixed, read_event, event_kind,
  select_event, valid_range_version, compare_osv, compare_trimmed,
}
use lopper.Osv.Match.{
  Advisory, affected_if, timeline_affects, ecosystem_bounds, semver_range_match,
  ecosystem_range_match, has_osv_version_metadata, advisory_version_match, ranges_match,
  range_match,
}
use lopper.Osv.Timeline.{IsOpen, timeline_affects_iff}
use lopper.Osv.Agreement.{semver-ecosystem_range_match}
use lopper.Osv.Ranges.{stronger, strongest, advisory_version_match-strongest, ranges_match-perm}

abbrev by_text : Semver
by_text = record { is_valid = λ _. true; compare_valid = compare_str; order = compare_str-IsOrder }

abbrev two_events : List SemanticEvent
two_events =
    record { kind = introduced; version = codes "1.0" }
    ∷ record { kind = fixed; version = codes "1.4" }
    ∷ []

timeline_affects_iff_example :
    (timeline_affects by_text two_events (codes "1.2") ≡ true)
    ↔ IsOpen by_text (codes "1.2") two_events
timeline_affects_iff_example = timeline_affects_iff by_text (codes "1.2") two_events

abbrev from_event : Str → VersionEvent
from_event version = record { introduced = version; fixed = []; last_affected = []; limit = [] }

abbrev to_event : Str → VersionEvent
to_event version = record { introduced = []; fixed = version; last_affected = []; limit = [] }

abbrev events : List VersionEvent
events = to_event (codes "1.4") ∷ from_event (codes "1.0") ∷ []

bounds :
    ecosystem_bounds by_text (to_event (codes "1.4") ∷ from_event (codes "1.0") ∷ [])
    ≡ some (codes "1.0", codes "1.4")
unfolding ecosystem_bounds read_event event_kind select_event valid_range_version compare_osv
    compare_trimmed compare_semantic_versions compare_str trim_space str_eq
bounds = refl

semver-ecosystem_range_match_example :
    semver_range_match by_text events (codes "1.2")
    ≡ ecosystem_range_match by_text events (codes "1.2")
semver-ecosystem_range_match_example =
    semver-ecosystem_range_match by_text events (codes "1.2") bounds

abbrev semver_range : VersionRange
semver_range = record { range_type = codes "SEMVER"; events = events }

abbrev git_range : VersionRange
git_range = record { range_type = codes "GIT"; events = [] }

abbrev advisory : Advisory
advisory = record {
  id = codes "GHSA-1";
  package_name = codes "lodash";
  ecosystem = codes "npm";
  severity = codes "high";
  fixed_version = [];
  source = [];
  aliases = [];
  affected_versions = codes "0.9" ∷ [];
  version_ranges = git_range ∷ semver_range ∷ [];
}

has_metadata : has_osv_version_metadata advisory ≡ true
unfolding has_osv_version_metadata
has_metadata = refl

is_given : str_eq (trim_space (codes "1.2 ")) [] ≡ false
unfolding str_eq trim_space
is_given = refl

advisory_version_match-strongest_example :
    advisory_version_match by_text advisory (codes "1.2 ")
    ≡ stronger
        (affected_if (
          any
            (λ version. str_eq (trim_space (codes "1.2 ")) (trim_space version))
            advisory.affected_versions))
        (strongest
          (map (λ r. range_match by_text r (trim_space (codes "1.2 "))) advisory.version_ranges))
advisory_version_match-strongest_example =
    advisory_version_match-strongest by_text advisory (codes "1.2 ") has_metadata is_given

ranges_match-perm_example :
    ranges_match by_text false (git_range ∷ semver_range ∷ []) (codes "1.2")
    ≡ ranges_match by_text false (semver_range ∷ git_range ∷ []) (codes "1.2")
ranges_match-perm_example =
    ranges_match-perm by_text (git_range ∷ semver_range ∷ []) (semver_range ∷ git_range ∷ [])
      (codes "1.2") (Permᴰ.swap refl refl)
