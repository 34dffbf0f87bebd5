-- ===== src/Tests/Policies.antt =====
-- The theorems on internal/thresholds at a configuration.
use lopper.Prelude.{◌≡◌, refl, true, List, [], ◌∷◌, none, some}
use lopper.Prelude.Int.{pos}
use lopper.Prelude.Result.{ok}
use lopper.Prelude.Sort.{sort_by}
use lopper.Prelude.Sorted.{Pairwise}
use lopper.Text.{Str, codes, str_eq, compare_str, trim_space, to_lower}
use lopper.Text.Ascending.{has, Before}
use lopper.Thresholds.Values.{
  Values, Overrides, validate_weight_set, validate_removal_candidate_weight,
  default_removal_candidate_weights, normalize_deny_list, deny_list_from, normalize_spdx_id,
  validate_with_sentinel, validate_percentage_range, validate_lockfile_drift_policy,
  validate_priority, valid_priority_threshold, normalize_priority_threshold,
}
use lopper.Thresholds.Apply.{
  apply, defaults, validate_values, validate_overrides, validate_override_ints,
  validate_override_strings, validate_optional_weights,
}
use lopper.Thresholds.Accepted.{apply-accepted}
use lopper.Thresholds.DenyList.{denies, normalize_deny_list_lem}
use lopper.Tests.Samples.{exact}

abbrev overrides : Overrides exact
overrides = record {
  fail_on_increase_percent = some (pos 5);
  low_confidence_warning_percent = none;
  min_usage_percent_for_recommendations = some (pos 100);
  max_uncertain_import_count = none;
  removal_candidate_weight_usage = some 0;
  removal_candidate_weight_impact = none;
  removal_candidate_weight_confidence = none;
  lockfile_drift_policy = some (codes "fail");
  license_deny_list = codes "gpl-3.0" ∷ [];
  license_deny_list_set = true;
  license_fail_on_deny = some true;
  license_include_registry_provenance = none;
  reachable_vulnerability_priority = some (codes " High");
}

abbrev normalized : Overrides exact
normalized = record overrides {
  license_deny_list = codes "GPL-3.0" ∷ [];
  reachable_vulnerability_priority = some (codes "high");
}

default_weights : validate_weight_set exact (default_removal_candidate_weights exact) ≡ ok tt
unfolding validate_weight_set validate_removal_candidate_weight
default_weights = refl

validates : validate_overrides exact overrides ≡ ok normalized
unfolding validate_overrides validate_override_ints validate_override_strings
    validate_optional_weights validate_weight_set validate_removal_candidate_weight
    validate_with_sentinel validate_percentage_range validate_lockfile_drift_policy
    validate_priority valid_priority_threshold normalize_priority_threshold normalize_deny_list
    deny_list_from normalize_spdx_id sort_by compare_str str_eq trim_space to_lower
validates = refl

apply-accepted_example :
    (v : Values exact) × (validate_values exact (apply exact normalized (defaults exact)) ≡ ok v)
apply-accepted_example = apply-accepted exact overrides normalized default_weights validates

abbrev denied : List Str
denied = codes "mit" ∷ codes "GPL 3" ∷ codes "MIT" ∷ codes "?" ∷ []

normalize_deny_list_lem_example :
    Pairwise Before (normalize_deny_list denied)
    × ((s : Str) → has s (normalize_deny_list denied) ≡ denies denied s)
normalize_deny_list_lem_example = normalize_deny_list_lem denied
