-- ===== src/Tests/Reports.antt =====
-- The theorems on merged reports, summaries and findings at small reports.
use lopper.Prelude.{◌+◌, ◌≤◌, ◌≡◌, refl, ◌⊎◌, true, List, [], ◌∷◌, map, none, some, All}
use lopper.Prelude.Sorted.{Pairwise}
use lopper.Text.{Str, codes}
use lopper.Text.Ascending.{has, Before}
use lopper.Dict.{has_value}
use lopper.Model.Dependency.{DependencyReport, VulnerabilityFinding}
use lopper.Merge.Reports.{Report, dependency_merge_key, merge_reports}
use lopper.Merge.Grouping.{all_dependencies, combined, merge_reports-grouped}
use lopper.Merge.Faithful.{IsFaithful, merge_reports-IsFaithful}
use lopper.Prelude.Counts.{total}
use lopper.Vulnerability.Ranks.{severity_rank, merge_severity}
use lopper.Vulnerability.Merging.{merge_severity-highest}
use lopper.Summary.Vulnerabilities.{new_builder, add_findings, summary}
use lopper.Summary.Licenses.{
  Summary, compute_summary, summarize, update_licenses, update_stats, build_rollup,
}
use lopper.Summary.Languages.{compute_language_breakdown}
use lopper.Summary.Totals.{compute_summary-licenses, IsTallied, add_findings-IsTallied}
use lopper.Summary.Breakdown.{named_weight, compute_language_breakdown-totals}
use lopper.Tests.Samples.{exact, left_report, right_report, partial_report}

abbrev report_with : List (DependencyReport exact) → Report exact
report_with deps = record {
  generated_at = 7;
  repo_path = codes "/repo";
  dependencies = deps;
  usage_uncertainty = none;
  warnings = [];
}

abbrev reports : List (Report exact)
reports = report_with (left_report ∷ []) ∷ report_with (right_report ∷ partial_report ∷ []) ∷ []

merge_reports-grouped_example :
    let merged = (merge_reports exact (codes "/repo") reports).dependencies in
    let deps = all_dependencies exact reports in
    Pairwise Before (map (dependency_merge_key exact) merged)
    × All (λ dep. combined exact (dependency_merge_key exact dep) none deps ≡ some dep) merged
    × ((key : Str)
        → has key (map (dependency_merge_key exact) merged)
          ≡ has_value (combined exact key none deps))
merge_reports-grouped_example = merge_reports-grouped exact (codes "/repo") reports

merge_reports-IsFaithful_example :
    All
      (λ merged.
        IsFaithful exact
          (dependency_merge_key exact merged)
          (all_dependencies exact reports)
          merged)
      (merge_reports exact (codes "/repo") reports).dependencies
merge_reports-IsFaithful_example = merge_reports-IsFaithful exact (codes "/repo") reports

abbrev summed : Summary exact
summed = record {
  dependency_count = 2;
  used_exports_count = 2;
  total_exports_count = 4;
  used_percent = 5000;
  licenses = record { known = 0; unknown = 2; denied = 0 };
  reachability = none;
  vulnerabilities = none;
}

summarizes : compute_summary exact (left_report ∷ right_report ∷ []) ≡ some summed
unfolding compute_summary summarize update_licenses update_stats build_rollup add_findings summary
summarizes = refl

compute_summary-licenses_example :
    summed.licenses.known + summed.licenses.unknown + summed.licenses.denied
    ≡ summed.dependency_count
compute_summary-licenses_example =
    compute_summary-licenses exact (left_report ∷ right_report ∷ []) summed summarizes

abbrev finding : Str → VulnerabilityFinding exact
finding severity = record {
  advisory_id = codes "GHSA-1";
  package_name = codes "lodash";
  severity = severity;
  version_status = [];
  fixed_version = [];
  source = codes "osv";
  priority = codes "high";
  priority_score = 7500;
  reachable = true;
  decision = none;
  evidence = [];
}

add_findings-IsTallied_example :
    IsTallied exact
      (add_findings exact new_builder (finding (codes "low") ∷ finding (codes "CRIT") ∷ []))
      (finding (codes "low") ∷ finding (codes "CRIT") ∷ [])
add_findings-IsTallied_example =
    add_findings-IsTallied exact (finding (codes "low") ∷ finding (codes "CRIT") ∷ [])

compute_language_breakdown-totals_example :
    let breakdown = compute_language_breakdown exact (left_report ∷ right_report ∷ []) in
    (total (λ s. s.dependency_count) breakdown
      ≡ named_weight exact (λ dep. 1) (left_report ∷ right_report ∷ []))
    × (total (λ s. s.used_exports_count) breakdown
        ≡ named_weight exact (λ dep. dep.used_exports_count) (left_report ∷ right_report ∷ []))
    × (total (λ s. s.total_exports_count) breakdown
        ≡ named_weight exact (λ dep. dep.total_exports_count) (left_report ∷ right_report ∷ []))
compute_language_breakdown-totals_example =
    compute_language_breakdown-totals exact (left_report ∷ right_report ∷ [])

merge_severity-highest_example :
    let rank = severity_rank (merge_severity (codes "low") (codes "Moderate")) in
    (severity_rank (codes "low") ≤ rank)
    × (severity_rank (codes "Moderate") ≤ rank)
    × ((rank ≡ severity_rank (codes "low")) ⊎ (rank ≡ severity_rank (codes "Moderate")))
merge_severity-highest_example = merge_severity-highest (codes "low") (codes "Moderate")
