-- ===== src/Thresholds/Apply.antt =====
-- internal/thresholds/thresholds.go: `Validate` of thresholds and of overrides, and `Apply`.
use lopper.Prelude.{Bool, true, false, ◌||◌, List, [], ◌∷◌, Option, none, some, if◌then◌else◌}
use lopper.Prelude.Int.{ℤ, pos, negsuc}
use lopper.Prelude.Result.{ok, ◌>>◌}
use lopper.Text.{Str, codes}
use lopper.Float.{Float64}
use lopper.Model.Dependency.{RemovalCandidateWeights}
use lopper.Thresholds.Values.{
  Checked, Values, Overrides, normalize_priority_threshold, validate_fail_on_increase,
  validate_percentage_range, validate_with_sentinel, validate_lockfile_drift_policy,
  validate_priority, normalize_deny_list, validate_weight_set, default_removal_candidate_weights,
}

-- The value of a pointer, or the other value.
abbrev pub or_base {ℓ} : {A : Type ℓ} → Option A → A → A
or_base none base = base
or_base (some value) base = value

abbrev pub if_present : {A : Type 0} → (A → Checked (Unit {0})) → Option A → Checked (Unit {0})
if_present validate none = ok tt
if_present validate (some value) = validate value

abbrev pub is_present : {A : Type 0} → Option A → Bool
is_present none = false
is_present (some value) = true

abbrev is_nonempty : List Str → Bool
is_nonempty [] = false
is_nonempty (item ∷ items) = true

abbrev pub normalize_optional : Option Str → Option Str
normalize_optional none = none
normalize_optional (some value) = some (normalize_priority_threshold value)

-- The entries of `intThresholdValidators` for the percentages and for the count of imports.
abbrev pub validate_low_confidence : ℤ → Checked (Unit {0})
validate_low_confidence = validate_percentage_range (codes "low_confidence_warning_percent")

abbrev pub validate_min_usage : ℤ → Checked (Unit {0})
validate_min_usage = validate_percentage_range (codes "min_usage_percent_for_recommendations")

abbrev pub validate_max_uncertain : ℤ → Checked (Unit {0})
validate_max_uncertain = validate_with_sentinel (codes "max_uncertain_import_count")

module _ (float : Float64) where
  -- `RemovalCandidateWeights`.
  abbrev pub removal_candidate_weights : Values float → RemovalCandidateWeights float
  removal_candidate_weights v = record {
    usage = v.removal_candidate_weight_usage;
    impact = v.removal_candidate_weight_impact;
    confidence = v.removal_candidate_weight_confidence;
  }

  -- `Defaults`.
  abbrev pub defaults : Values float
  defaults = record {
    fail_on_increase_percent = negsuc 0;
    low_confidence_warning_percent = pos 40;
    min_usage_percent_for_recommendations = pos 40;
    max_uncertain_import_count = negsuc 0;
    removal_candidate_weight_usage = (default_removal_candidate_weights float).usage;
    removal_candidate_weight_impact = (default_removal_candidate_weights float).impact;
    removal_candidate_weight_confidence = (default_removal_candidate_weights float).confidence;
    lockfile_drift_policy = codes "warn";
    license_deny_list = [];
    license_fail_on_deny = false;
    license_include_registry_provenance = false;
    reachable_vulnerability_priority = codes "off";
  }

  -- `validateValueInts`.
  unfoldable pub validate_value_ints : Values float → Checked (Unit {0})
  validate_value_ints v = do
    validate_fail_on_increase v.fail_on_increase_percent
    validate_low_confidence v.low_confidence_warning_percent
    validate_min_usage v.min_usage_percent_for_recommendations
    validate_max_uncertain v.max_uncertain_import_count

  -- `validateValueStrings`.
  unfoldable pub validate_value_strings : Values float → Checked (Unit {0})
  validate_value_strings v = do
    validate_lockfile_drift_policy v.lockfile_drift_policy
    validate_priority v.reachable_vulnerability_priority

  -- `Validate` of `Values`, with the thresholds that it leaves behind.
  unfoldable pub validate_values : Values float → Checked (Values float)
  validate_values v = do
    validate_value_ints v
    validate_weight_set float (removal_candidate_weights v)
    validate_value_strings v
    ok (record v {
      license_deny_list = normalize_deny_list v.license_deny_list;
      reachable_vulnerability_priority =
          normalize_priority_threshold v.reachable_vulnerability_priority;
    })

  -- `validateOverrideInts`.
  unfoldable pub validate_override_ints : Overrides float → Checked (Unit {0})
  validate_override_ints o = do
    if_present validate_fail_on_increase o.fail_on_increase_percent
    if_present validate_low_confidence o.low_confidence_warning_percent
    if_present validate_min_usage o.min_usage_percent_for_recommendations
    if_present validate_max_uncertain o.max_uncertain_import_count

  -- `validateOverrideStrings`.
  unfoldable pub validate_override_strings : Overrides float → Checked (Unit {0})
  validate_override_strings o = do
    if_present validate_lockfile_drift_policy o.lockfile_drift_policy
    if_present validate_priority o.reachable_vulnerability_priority

  -- `validateOptionalWeights`.
  unfoldable pub validate_optional_weights : Overrides float → Checked (Unit {0})
  validate_optional_weights o =
      if is_present o.removal_candidate_weight_usage
        || is_present o.removal_candidate_weight_impact
        || is_present o.removal_candidate_weight_confidence
      then validate_weight_set float (record {
        usage =
            or_base o.removal_candidate_weight_usage
              (default_removal_candidate_weights float).usage;
        impact =
            or_base o.removal_candidate_weight_impact
              (default_removal_candidate_weights float).impact;
        confidence =
            or_base o.removal_candidate_weight_confidence
              (default_removal_candidate_weights float).confidence;
      })
      else ok tt

  -- `Validate` of `Overrides`, with the overrides that it leaves behind.
  unfoldable pub validate_overrides : Overrides float → Checked (Overrides float)
  validate_overrides o = do
    validate_override_ints o
    validate_optional_weights o
    validate_override_strings o
    ok (record o {
      license_deny_list = normalize_deny_list o.license_deny_list;
      reachable_vulnerability_priority = normalize_optional o.reachable_vulnerability_priority;
    })

  -- `SetLicenseDenyList`.
  abbrev pub set_license_deny_list : List Str → Overrides float → Overrides float
  set_license_deny_list values o = record o {
    license_deny_list = values;
    license_deny_list_set = true;
  }

  -- `Apply`.
  unfoldable pub apply : Overrides float → Values float → Values float
  apply o base = record {
    fail_on_increase_percent = or_base o.fail_on_increase_percent base.fail_on_increase_percent;
    low_confidence_warning_percent =
        or_base o.low_confidence_warning_percent base.low_confidence_warning_percent;
    min_usage_percent_for_recommendations =
        or_base o.min_usage_percent_for_recommendations base.min_usage_percent_for_recommendations;
    max_uncertain_import_count =
        or_base o.max_uncertain_import_count base.max_uncertain_import_count;
    removal_candidate_weight_usage =
        or_base o.removal_candidate_weight_usage base.removal_candidate_weight_usage;
    removal_candidate_weight_impact =
        or_base o.removal_candidate_weight_impact base.removal_candidate_weight_impact;
    removal_candidate_weight_confidence =
        or_base o.removal_candidate_weight_confidence base.removal_candidate_weight_confidence;
    lockfile_drift_policy = or_base o.lockfile_drift_policy base.lockfile_drift_policy;
    license_deny_list = normalize_deny_list (
        if o.license_deny_list_set || is_nonempty o.license_deny_list
        then o.license_deny_list
        else base.license_deny_list);
    license_fail_on_deny = or_base o.license_fail_on_deny base.license_fail_on_deny;
    license_include_registry_provenance =
        or_base o.license_include_registry_provenance base.license_include_registry_provenance;
    reachable_vulnerability_priority =
        or_base (normalize_optional o.reachable_vulnerability_priority)
          base.reachable_vulnerability_priority;
  }
