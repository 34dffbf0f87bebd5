-- ===== src/Thresholds/Values.antt =====
-- internal/thresholds/thresholds.go: thresholds, overrides and their validators.
use lopper.Prelude.{
  ℕ, ◌+◌, ◌-◌, Bool, true, false, not, ◌&&◌, ◌||◌, List, [], ◌∷◌, ◌++◌, Option, leb, ◌==◌,
  if◌then◌else◌, any,
}
use lopper.Prelude.Int.{ℤ, pos, negsuc, ltb_ℤ}
use lopper.Prelude.Result.{Result, ok, err, ◌>>◌}
use lopper.Prelude.Sort.{sort_by, is_lt}
use lopper.Text.{Str, codes, str_eq, trim_space, to_lower, compare_str}
use lopper.Float.{Float64, literal}
use lopper.Model.Dependency.{RemovalCandidateWeights}

-- The errors of the validators: which threshold, or which test of the weights.
pub data ThresholdError : Type 0 where
  not_disabled_or_positive : Str → ℤ → ThresholdError
  not_percentage : Str → ℤ → ThresholdError
  bad_lockfile_policy bad_priority : Str → ThresholdError
  weight_not_finite weight_negative : Str → ThresholdError
  no_positive_weight : ThresholdError

abbrev pub Checked : Type 0 → Type 0
Checked A = Result ThresholdError A

abbrev pub guard : Bool → ThresholdError → Checked (Unit {0})
guard true e = ok tt
guard false e = err e

-- `NormalizeVulnerabilityPriorityThreshold` of internal/report/vulnerability.go.
unfoldable pub normalize_priority_threshold : Str → Str
normalize_priority_threshold value =
    let lowered = to_lower (trim_space value) in if str_eq lowered [] then codes "off" else lowered

-- `ValidVulnerabilityPriorityThreshold` of the same file.
unfoldable pub valid_priority_threshold : Str → Bool
valid_priority_threshold value =
    any (λ known. str_eq (normalize_priority_threshold value) known)
      (codes "off" ∷ codes "low" ∷ codes "medium" ∷ codes "high" ∷ codes "critical" ∷ [])

-- `validateThresholdWithDisableSentinel`: -1 disables.
unfoldable pub validate_with_sentinel : Str → ℤ → Checked (Unit {0})
validate_with_sentinel name value =
    guard (not (ltb_ℤ value (negsuc 0))) (not_disabled_or_positive name value)

-- `validateFailOnIncrease`.
abbrev pub validate_fail_on_increase : ℤ → Checked (Unit {0})
validate_fail_on_increase value = validate_with_sentinel (codes "fail_on_increase_percent") value

-- `validatePercentageRange`.
unfoldable pub validate_percentage_range : Str → ℤ → Checked (Unit {0})
validate_percentage_range name value =
    guard (not (ltb_ℤ value (pos 0) || ltb_ℤ (pos 100) value)) (not_percentage name value)

-- `validateLockfileDriftPolicy`.
unfoldable pub validate_lockfile_drift_policy : Str → Checked (Unit {0})
validate_lockfile_drift_policy value =
    guard (any (λ known. str_eq value known) (codes "off" ∷ codes "warn" ∷ codes "fail" ∷ []))
      (bad_lockfile_policy value)

-- `validateReachableVulnerabilityPriority`.
unfoldable pub validate_priority : Str → Checked (Unit {0})
validate_priority value = guard (valid_priority_threshold value) (bad_priority value)

-- The runes that `normalizeSPDXID` keeps, as capitals.
abbrev spdx_rune : ℕ → Str
spdx_rune r =
    if leb b'a' r && leb r b'z'
    then (r - b'a' + b'A') ∷ []
    else if leb b'A' r && leb r b'Z' || leb b'0' r && leb r b'9'
    then r ∷ []
    else if r == b'-' || r == b'.' || r == b'+'
    then r ∷ []
    else []

-- `normalizeSPDXID`.
unfoldable pub normalize_spdx_id : Str → Str
normalize_spdx_id [] = []
normalize_spdx_id (r ∷ value) = spdx_rune r ++ normalize_spdx_id value

-- The loop of `normalizeDenyList`; `out` is also `seen`.
unfoldable pub deny_list_from : List Str → List Str → List Str
deny_list_from out [] = out
deny_list_from out (value ∷ values) =
    let item = normalize_spdx_id value in
    deny_list_from
      (if str_eq item []
        then out
        else if any (λ seen. str_eq seen item) out
        then out
        else out ++ item ∷ [])
      values

-- `normalizeDenyList`.
unfoldable pub normalize_deny_list : List Str → List Str
normalize_deny_list values = sort_by (λ a b. is_lt (compare_str a b)) (deny_list_from [] values)

module _ (float : Float64) where
  -- `Values`.
  pub record Values : Type 0 where
    pub fail_on_increase_percent : ℤ
    pub low_confidence_warning_percent : ℤ
    pub min_usage_percent_for_recommendations : ℤ
    pub max_uncertain_import_count : ℤ
    pub removal_candidate_weight_usage : float.Carrier
    pub removal_candidate_weight_impact : float.Carrier
    pub removal_candidate_weight_confidence : float.Carrier
    pub lockfile_drift_policy : Str
    pub license_deny_list : List Str
    pub license_fail_on_deny : Bool
    pub license_include_registry_provenance : Bool
    pub reachable_vulnerability_priority : Str

  -- `Overrides`; a pointer that is nil is `none`.
  pub record Overrides : Type 0 where
    pub fail_on_increase_percent : Option ℤ
    pub low_confidence_warning_percent : Option ℤ
    pub min_usage_percent_for_recommendations : Option ℤ
    pub max_uncertain_import_count : Option ℤ
    pub removal_candidate_weight_usage : Option float.Carrier
    pub removal_candidate_weight_impact : Option float.Carrier
    pub removal_candidate_weight_confidence : Option float.Carrier
    pub lockfile_drift_policy : Option Str
    pub license_deny_list : List Str
    pub license_deny_list_set : Bool
    pub license_fail_on_deny : Option Bool
    pub license_include_registry_provenance : Option Bool
    pub reachable_vulnerability_priority : Option Str

  -- `DefaultRemovalCandidateWeights` of internal/report/scoring.go.
  abbrev pub default_removal_candidate_weights : RemovalCandidateWeights float
  default_removal_candidate_weights = record {
    usage = literal float 50 100;
    impact = literal float 30 100;
    confidence = literal float 20 100;
  }

  -- `validateRemovalCandidateWeight` of that file.
  unfoldable pub validate_removal_candidate_weight : Str → float.Carrier → Checked (Unit {0})
  validate_removal_candidate_weight name value = do
    guard (float.is_finite value) (weight_not_finite name)
    guard (not (float.lt value (float.of_nat 0))) (weight_negative name)

  -- `ValidateRemovalCandidateWeightSet` of that file.
  unfoldable pub validate_weight_set : RemovalCandidateWeights float → Checked (Unit {0})
  validate_weight_set weights = do
    validate_removal_candidate_weight (codes "removal_candidate_weight_usage") weights.usage
    validate_removal_candidate_weight (codes "removal_candidate_weight_impact") weights.impact
    validate_removal_candidate_weight (codes "removal_candidate_weight_confidence")
        weights.confidence
    guard
        (not (
          float.le weights.usage (float.of_nat 0)
          && float.le weights.impact (float.of_nat 0)
          && float.le weights.confidence (float.of_nat 0)))
        no_positive_weight
