-- ===== src/Baseline/Comparison.antt =====
-- internal/report/baseline_diff.go: the comparison of two reports, and `ApplyBaseline`.
use lopper.Prelude.{
  ℕ, Bool, not, ◌&&◌, List, [], ◌∷◌, ◌++◌, Option, none, some, map, ltb, ◌==◌, if◌then◌else◌,
}
use lopper.Prelude.Int.{ℤ, difference}
use lopper.Prelude.Result.{Result, ok, err}
use lopper.Prelude.Sort.{sort_by, is_lt}
use lopper.Prelude.Counts.{total}
use lopper.Text.{Str, str_eq, trim_space, compare_str}
use lopper.Float.{Float64}
use lopper.Model.Dependency.{DependencyReport, VulnerabilityFinding}
use lopper.Vulnerability.Ranks.{priority_rank}
use lopper.Summary.Licenses.{Summary, compute_summary}
use lopper.Purl.{Url}
use lopper.Baseline.Pairing.{Slot, Pair}
use lopper.Baseline.Bridges.{BridgeError, pair_instances, pair_instances_checked}
use lopper.Baseline.Deltas.{
  DeltaLists, no_deltas, append_instance_deltas, DeniedLicenseDelta, newly_denied_licenses,
  new_reachable_findings, pair_key,
}

-- The errors of `ApplyBaseline`.
pub data BaselineError : Type 0 where
  baseline_missing no_baseline_totals no_current_totals : BaselineError
  ambiguous : BridgeError → BaselineError

module _ (float : Float64) where
  -- The fields of `Report` that a comparison reads.
  pub record ComparedReport : Type 0 where
    pub dependencies : List (DependencyReport float)
    pub summary : Option (Summary float)

  -- `SummaryDelta`.
  pub record SummaryDelta : Type 0 where
    pub dependency_count : ℤ
    pub used_exports_count : ℤ
    pub total_exports_count : ℤ
    pub used_percent : float.Carrier
    pub waste_percent : float.Carrier
    pub unused_bytes : ℤ
    pub known_licenses : ℤ
    pub unknown_licenses : ℤ
    pub denied_licenses : ℤ
    pub reachable_findings : ℤ

  -- `VulnerabilityDelta`; what it copies from a finding is the finding itself.
  pub record VulnerabilityDelta : Type 0 where
    pub language : Str
    pub name : Str
    pub finding : VulnerabilityFinding float
    pub dependency_key : Str
    pub current_ordinal : ℕ

  abbrev or_computed :
      Option (Summary float) → List (DependencyReport float) → Option (Summary float)
  or_computed none deps = compute_summary float deps
  or_computed (some summary) deps = some summary

  -- The summary of a report, computed where it has none.
  abbrev pub summary_of_report : ComparedReport → Option (Summary float)
  summary_of_report report = or_computed report.summary report.dependencies

  -- `safeSummaryField` and `safeSummaryFloat`.
  abbrev field : {T : Type 0} → T → (Summary float → T) → Option (Summary float) → T
  field default select none = default
  field default select (some summary) = select summary

  -- `safeReachableVulnerabilityCount`.
  abbrev reachable_findings_of : Summary float → ℕ
  reachable_findings_of summary = elim summary.vulnerabilities [
    | none ↦ 0
    | some vulnerabilities ↦ vulnerabilities.reachable_findings
  ]

  abbrev waste_of : Summary float → float.Carrier
  waste_of summary =
      if summary.total_exports_count == 0
      then float.of_nat 0
      else float.sub (float.of_nat 100) summary.used_percent

  -- `wasteFromSummary`.
  unfoldable pub waste_from_summary : Option (Summary float) → float.Carrier
  waste_from_summary summary = field (float.of_nat 0) waste_of summary

  -- `WastePercent`.
  unfoldable pub waste_percent : Option (Summary float) → Option float.Carrier
  waste_percent none = none
  waste_percent (some summary) =
      if summary.total_exports_count == 0
      then none
      else some (float.sub (float.of_nat 100) summary.used_percent)

  -- The `SummaryDelta` of `computeBaselineComparisonFromPairs`.
  unfoldable pub summary_delta : ComparedReport → ComparedReport → SummaryDelta
  summary_delta current baseline =
      let now = summary_of_report current in
      let before = summary_of_report baseline in
      let count =
        λ (select : Summary float → ℕ). difference (field 0 select now) (field 0 select before) in
      let bytes = λ (dep : DependencyReport float). dep.estimated_unused_bytes in
      record {
        dependency_count = count (λ s. s.dependency_count);
        used_exports_count = count (λ s. s.used_exports_count);
        total_exports_count = count (λ s. s.total_exports_count);
        used_percent =
            float.sub (field (float.of_nat 0) (λ s. s.used_percent) now)
              (field (float.of_nat 0) (λ s. s.used_percent) before);
        waste_percent = float.sub (waste_from_summary now) (waste_from_summary before);
        unused_bytes =
            difference (total bytes current.dependencies) (total bytes baseline.dependencies);
        known_licenses = count (λ s. s.licenses.known);
        unknown_licenses = count (λ s. s.licenses.unknown);
        denied_licenses = count (λ s. s.licenses.denied);
        reachable_findings = count reachable_findings_of;
      }

  -- The `less` of `sortReachableVulnerabilityDeltas`.
  unfoldable pub vulnerability_delta_less : VulnerabilityDelta → VulnerabilityDelta → Bool
  vulnerability_delta_less a b =
      let score = λ (d : VulnerabilityDelta). d.finding.priority_score in
      let rank = λ (d : VulnerabilityDelta). priority_rank d.finding.priority in
      if not (float.le (score a) (score b) && float.le (score b) (score a))
      then float.lt (score b) (score a)
      else if not (rank a == rank b)
      then ltb (rank b) (rank a)
      else if not (str_eq a.language b.language)
      then is_lt (compare_str a.language b.language)
      else if not (str_eq a.name b.name)
      then is_lt (compare_str a.name b.name)
      else is_lt (compare_str a.finding.advisory_id b.finding.advisory_id)

  module _ (url : Url) (format_float : float.Carrier → Str) where
    -- `BaselineComparison`.
    pub record BaselineComparison : Type 0 where
      pub baseline_key : Str
      pub current_key : Str
      pub summary : SummaryDelta
      pub lists : DeltaLists float
      pub new_denied_licenses : List DeniedLicenseDelta
      pub new_reachable_vulnerabilities : List VulnerabilityDelta

    abbrev findings_of : Option (Slot float url format_float) → List (VulnerabilityFinding float)
    findings_of none = []
    findings_of (some slot) = slot.dep.vulnerabilities

    -- The findings of one pair, in `appendNewReachableVulnerabilityDeltas`.
    unfoldable pub vulnerability_deltas_of :
        Option (Slot float url format_float) → Pair float url format_float → List VulnerabilityDelta
    vulnerability_deltas_of none pair = []
    vulnerability_deltas_of (some c) pair =
        map
          (λ finding. record {
            language = c.dep.language;
            name = c.dep.name;
            finding = finding;
            dependency_key = pair_key float url format_float pair;
            current_ordinal = c.ordinal;
          })
          (new_reachable_findings float c.dep.vulnerabilities (findings_of pair.baseline))

    -- `appendNewReachableVulnerabilityDeltas`.
    unfoldable pub vulnerability_deltas :
        List (Pair float url format_float) → List VulnerabilityDelta
    vulnerability_deltas [] = []
    vulnerability_deltas (pair ∷ pairs) =
        vulnerability_deltas_of pair.current pair ++ vulnerability_deltas pairs

    -- `newlyReachableVulnerabilitiesFromPairs`.
    unfoldable pub newly_reachable_vulnerabilities :
        List (Pair float url format_float) → List VulnerabilityDelta
    newly_reachable_vulnerabilities pairs =
        sort_by vulnerability_delta_less (vulnerability_deltas pairs)

    -- `computeBaselineComparisonFromPairs`.
    unfoldable pub comparison_from_pairs :
        ComparedReport → ComparedReport → List (Pair float url format_float) → BaselineComparison
    comparison_from_pairs current baseline pairs = record {
      baseline_key = [];
      current_key = [];
      summary = summary_delta current baseline;
      lists = append_instance_deltas float url format_float (no_deltas float) pairs;
      new_denied_licenses = newly_denied_licenses float url format_float pairs;
      new_reachable_vulnerabilities = newly_reachable_vulnerabilities pairs;
    }

    -- `ComputeBaselineComparison`.
    unfoldable pub compute_comparison : ComparedReport → ComparedReport → BaselineComparison
    compute_comparison current baseline =
        comparison_from_pairs current baseline
          (pair_instances float url format_float current.dependencies baseline.dependencies)

    -- `ComputeBaselineComparisonChecked`.
    unfoldable pub compute_comparison_checked :
        ComparedReport → ComparedReport → Result BridgeError BaselineComparison
    compute_comparison_checked current baseline =
        elim (pair_instances_checked float url format_float current.dependencies
          baseline.dependencies) [
            | ok pairs ↦ ok (comparison_from_pairs current baseline pairs)
            | err failure ↦ err failure
          ]

    -- The end of `ApplyBaselineWithKeys`: the increase of the waste, and the comparison.
    abbrev with_keys :
        float.Carrier
        → Str
        → Str
        → Result BridgeError BaselineComparison
        → Result BaselineError (float.Carrier × BaselineComparison)
    with_keys delta baseline_key current_key (err failure) = err (ambiguous failure)
    with_keys delta baseline_key current_key (ok comparison) = ok (
      delta,
      record comparison {
        baseline_key = trim_space baseline_key;
        current_key = trim_space current_key;
      },
    )

    -- `ApplyBaselineWithKeys`: what it sets in the current report.
    unfoldable pub apply_baseline :
        ComparedReport
        → ComparedReport
        → Str
        → Str
        → Result BaselineError (float.Carrier × BaselineComparison)
    apply_baseline current baseline baseline_key current_key = elim (summary_of_report baseline) [
      | none ↦ err baseline_missing
      | some before ↦
          if before.total_exports_count == 0
          then err no_baseline_totals
          else elim (waste_percent (summary_of_report current)) [
            | none ↦ err no_current_totals
            | some waste ↦ with_keys (float.sub waste (waste_of before)) baseline_key current_key (
                compute_comparison_checked (record current { summary = summary_of_report current })
                  baseline)
          ]
    ]
