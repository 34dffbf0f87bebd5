-- ===== src/Vulnerability/Scores.antt =====
-- internal/report/vulnerability.go: the priority of a finding and the order of findings.
use lopper.Prelude.{
  ℕ, Bool, true, false, not, ◌&&◌, ◌||◌, List, [], ◌∷◌, ◌++◌, Option, none, some, ltb, ◌==◌,
  if◌then◌else◌,
}
use lopper.Prelude.Sort.{sort_by, is_lt}
use lopper.Text.{Str, codes, str_eq, to_lower, compare_str}
use lopper.Dict.{values}
use lopper.Float.{Float64, literal, clamp_score}
use lopper.Model.Parts.{RuntimeUsage, Correlation, static_only, runtime_only, overlap, unset, other}
use lopper.Model.Dependency.{DependencyReport, VulnerabilityFinding}
use lopper.Merge.Unique.{merge_unique}
use lopper.Vulnerability.Ranks.{
  normalize_severity, severity_rank, priority_rank, normalize_decision_status,
}

-- `runtimeUsageCorrelation` of internal/report/scoring_reachability.go.
unfoldable pub runtime_usage_correlation : Option RuntimeUsage → Correlation
runtime_usage_correlation none = unset
runtime_usage_correlation (some usage) = elim usage.correlation [
  | unset ↦
      if usage.runtime_only
      then runtime_only
      else if ltb 0 usage.load_count
      then overlap
      else static_only
  | known ↦ known
]

abbrev is_overlap : Correlation → Bool
is_overlap overlap = true
is_overlap _ = false

abbrev is_nonempty {ℓ} : {A : Type ℓ} → List A → Bool
is_nonempty [] = false
is_nonempty (item ∷ items) = true

-- `runtimeEvidenceScore`, as a number of hundredths.
unfoldable pub runtime_evidence_score : Option RuntimeUsage → ℕ
runtime_evidence_score none = 0
runtime_evidence_score (some usage) = elim (runtime_usage_correlation (some usage)) [
  | overlap ↦ 100
  | runtime_only ↦ 90
  | static_only ↦ if ltb 0 usage.load_count then 75 else 35
  | unset ↦ if ltb 0 usage.load_count then 75 else 0
  | other text ↦ if ltb 0 usage.load_count then 75 else 0
]

-- `severityScore`.
unfoldable pub severity_score : Str → ℕ
severity_score severity =
    let s = normalize_severity severity in
    if str_eq s (codes "critical")
    then 100
    else if str_eq s (codes "high")
    then 80
    else if str_eq s (codes "medium")
    then 55
    else if str_eq s (codes "low")
    then 25
    else 10

module _ (float : Float64) where
  -- `staticImportEvidenceScore`.
  unfoldable pub static_import_evidence_score : DependencyReport float → ℕ
  static_import_evidence_score dep =
      if is_nonempty dep.used_imports
      then 100
      else if ltb 0 dep.used_exports_count || is_nonempty dep.top_used_symbols
      then 80
      else if is_nonempty dep.unused_imports
      then 45
      else if is_nonempty dep.suppressed_unused_imports
      then 45
      else 0

  -- `reachabilityScore`.
  unfoldable pub reachability_score : DependencyReport float → float.Carrier
  reachability_score dep = elim dep.reachability_confidence [
    | none ↦ float.of_nat (static_import_evidence_score dep)
    | some confidence ↦ clamp_score float confidence.score
  ]

  -- `vulnerabilityPrioritySignals`.
  pub record Signals : Type 0 where
    pub severity_score : float.Carrier
    pub reachability_score : float.Carrier
    pub runtime_score : float.Carrier
    pub static_score : float.Carrier

  -- `vulnerabilitySignals`.
  unfoldable pub vulnerability_signals : DependencyReport float → Str → Signals
  vulnerability_signals dep severity = record {
    severity_score = float.of_nat (severity_score severity);
    reachability_score = reachability_score dep;
    runtime_score = float.of_nat (runtime_evidence_score dep.runtime_usage);
    static_score = float.of_nat (static_import_evidence_score dep);
  }

  -- `vulnerabilityPriorityScore`.
  unfoldable pub priority_score : Signals → float.Carrier
  priority_score signals =
      let weighted = λ (score : float.Carrier) (hundredths : ℕ).
        float.mul score (literal float hundredths 100) in
      clamp_score float (
        float.add
          (float.add
            (float.add (weighted signals.severity_score 50)
              (weighted signals.reachability_score 30))
            (weighted signals.runtime_score 10))
          (weighted signals.static_score 10))

  -- `vulnerabilityPriorityForScore`.
  unfoldable pub priority_for_score : float.Carrier → Str
  priority_for_score score =
      if float.le (float.of_nat 85) score
      then codes "critical"
      else if float.le (float.of_nat 70) score
      then codes "high"
      else if float.le (float.of_nat 45) score
      then codes "medium"
      else codes "low"

  -- `vulnerabilityIsReachable`.
  unfoldable pub is_reachable : Signals → DependencyReport float → Bool
  is_reachable signals dep =
      float.le (float.of_nat 60) signals.reachability_score
      || float.le (float.of_nat 75) signals.runtime_score
      || float.le (float.of_nat 80) signals.static_score
      || is_overlap (runtime_usage_correlation dep.runtime_usage)

  -- `FindingSuppressedByException`.
  unfoldable pub finding_suppressed : VulnerabilityFinding float → Bool
  finding_suppressed finding = elim finding.decision [
    | none ↦ false
    | some decision ↦
        let status = normalize_decision_status decision.status in
        not decision.expired
        && (str_eq status (codes "accepted-risk")
            || str_eq status (codes "not-affected")
            || str_eq status (codes "resolved"))
  ]

  -- `vulnerabilityFindingKey`.
  unfoldable pub finding_key : VulnerabilityFinding float → Str
  finding_key finding = to_lower finding.advisory_id ++ 0 ∷ to_lower finding.package_name

  -- The `less` of `sortVulnerabilityFindings`. Two floats are equal where neither is
  -- above the other, so a NaN differs from every number.
  unfoldable pub finding_less : VulnerabilityFinding float → VulnerabilityFinding float → Bool
  finding_less a b =
      if not
        (float.le a.priority_score b.priority_score && float.le b.priority_score a.priority_score)
      then float.lt b.priority_score a.priority_score
      else if not (priority_rank a.priority == priority_rank b.priority)
      then ltb (priority_rank b.priority) (priority_rank a.priority)
      else if not (str_eq a.severity b.severity)
      then ltb (severity_rank b.severity) (severity_rank a.severity)
      else is_lt (compare_str a.advisory_id b.advisory_id)

  -- `mergeVulnerabilityFindings`; the loop over the map goes by the order of its keys.
  unfoldable pub merge_findings :
      List (VulnerabilityFinding float)
      → List (VulnerabilityFinding float)
      → List (VulnerabilityFinding float)
  merge_findings existing additions =
      sort_by finding_less (values (merge_unique finding_key existing additions))
