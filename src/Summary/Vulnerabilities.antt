-- ===== src/Summary/Vulnerabilities.antt =====
-- internal/report/summary.go: the counts of vulnerability findings.
use lopper.Prelude.{
  ℕ, ◌+◌, Bool, true, not, ◌&&◌, List, [], ◌∷◌, Option, none, some, ltb, ◌==◌, if◌then◌else◌,
}
use lopper.Text.{Str, str_eq, trim_space}
use lopper.Text.Ascending.{sort_strings}
use lopper.Dict.{Dict, lookup, insert, keys}
use lopper.Float.{Float64}
use lopper.Model.Dependency.{VulnerabilityFinding}
use lopper.Vulnerability.Ranks.{normalize_severity, severity_rank, priority_rank}
use lopper.Vulnerability.Scores.{finding_suppressed}
use lopper.Thresholds.Values.{normalize_priority_threshold}

abbrev pub or_zero : Option ℕ → ℕ
or_zero none = 0
or_zero (some n) = n

-- `counts[key]++`
unfoldable pub count_up : Str → Dict ℕ → Dict ℕ
count_up key counts = insert key (or_zero (lookup key counts) + 1) counts

-- `vulnerabilitySummaryBuilder`; its set of sources is a map to true.
pub record Builder : Type 0 where
  pub total_findings : ℕ
  pub reachable_findings : ℕ
  pub highest_severity : Str
  pub highest_priority : Str
  pub by_severity : Dict ℕ
  pub by_priority : Dict ℕ
  pub sources : Dict Bool

-- `newVulnerabilitySummaryBuilder`.
abbrev pub new_builder : Builder
new_builder = record {
  total_findings = 0;
  reachable_findings = 0;
  highest_severity = [];
  highest_priority = [];
  by_severity = [];
  by_priority = [];
  sources = [];
}

-- `VulnerabilitySummary`; a nil map is the empty one.
pub record VulnerabilitySummary : Type 0 where
  pub total_findings : ℕ
  pub reachable_findings : ℕ
  pub highest_severity : Str
  pub highest_priority : Str
  pub by_severity : Dict ℕ
  pub by_priority : Dict ℕ
  pub sources : List Str

-- `copyNonZeroCounts`.
unfoldable pub copy_nonzero_counts : Dict ℕ → Dict ℕ
copy_nonzero_counts [] = []
copy_nonzero_counts ((key, value) ∷ counts) =
    let rest = copy_nonzero_counts counts in if value == 0 then rest else (key, value) ∷ rest

-- `sortedSourceSet`.
abbrev sorted_source_set : Dict Bool → List Str
sorted_source_set sources = sort_strings (keys sources)

-- `summary` of the builder.
unfoldable pub summary : Builder → Option VulnerabilitySummary
summary b =
    if b.total_findings == 0
    then none
    else some (record {
      total_findings = b.total_findings;
      reachable_findings = b.reachable_findings;
      highest_severity = b.highest_severity;
      highest_priority = b.highest_priority;
      by_severity = copy_nonzero_counts b.by_severity;
      by_priority = copy_nonzero_counts b.by_priority;
      sources = sorted_source_set b.sources;
    })

module _ (float : Float64) where
  -- One round of `add`.
  unfoldable pub add_finding : Builder → VulnerabilityFinding float → Builder
  add_finding b finding =
      let severity = normalize_severity finding.severity in
      let priority = normalize_priority_threshold finding.priority in
      let source = trim_space finding.source in
      record {
        total_findings = b.total_findings + 1;
        reachable_findings =
            if finding.reachable && not (finding_suppressed float finding)
            then b.reachable_findings + 1
            else b.reachable_findings;
        highest_severity =
            if ltb (severity_rank b.highest_severity) (severity_rank severity)
            then severity
            else b.highest_severity;
        highest_priority =
            if ltb (priority_rank b.highest_priority) (priority_rank priority)
            then priority
            else b.highest_priority;
        by_severity = count_up severity b.by_severity;
        by_priority = count_up priority b.by_priority;
        sources = if str_eq source [] then b.sources else insert source true b.sources;
      }

  -- `add`.
  unfoldable pub add_findings : Builder → List (VulnerabilityFinding float) → Builder
  add_findings b [] = b
  add_findings b (finding ∷ findings) = add_findings (add_finding b finding) findings
