-- ===== src/Vulnerability/Applying.antt =====
-- internal/report/vulnerability.go: `ApplyVulnerabilityExceptions`.
use lopper.Prelude.{List, [], ◌∷◌, ◌++◌, Option, none, some, if◌then◌else◌}
use lopper.Text.{Str, codes}
use lopper.Float.{Float64}
use lopper.Purl.{Url}
use lopper.Model.Dependency.{DependencyReport, VulnerabilityFinding, VulnerabilityExceptionDecision}
use lopper.Merge.Reports.{Report}
use lopper.Vulnerability.Ranks.{sorted_unique_strings}
use lopper.Vulnerability.Exceptions.{
  VulnerabilityException, Platform, normalize_exceptions, exception_decision,
}

module _ (float : Float64) (url : Url) (platform : Platform) where
  -- One round of the inner loop of `ApplyVulnerabilityExceptions`: the finding and its diagnostic.
  unfoldable pub annotate_finding :
      DependencyReport float
      → VulnerabilityFinding float
      → Option VulnerabilityExceptionDecision
      → VulnerabilityFinding float × List Str
  annotate_finding dep finding none = (finding, [])
  annotate_finding dep finding (some decision) = (
    record finding { decision = some decision },
    if decision.expired
        then (codes "expired vulnerability exception restored "
            ++ finding.advisory_id
            ++ codes " for "
            ++ dep.name)
          ∷ []
        else [],
  )

  -- The inner loop.
  unfoldable pub annotate_findings :
      (VulnerabilityFinding float → Option VulnerabilityExceptionDecision)
      → DependencyReport float
      → List (VulnerabilityFinding float)
      → List (VulnerabilityFinding float) × List Str
  annotate_findings decision dep [] = ([], [])
  annotate_findings decision dep (finding ∷ findings) =
      let (first, diagnostic) = annotate_finding dep finding (decision finding) in
      let (rest, diagnostics) = annotate_findings decision dep findings in
      (first ∷ rest, diagnostic ++ diagnostics)

  -- The outer loop.
  unfoldable pub annotate_dependencies :
      List VulnerabilityException
      → platform.Instant
      → Str
      → List (DependencyReport float)
      → List (DependencyReport float) × List Str
  annotate_dependencies exceptions now repo_path [] = ([], [])
  annotate_dependencies exceptions now repo_path (dep ∷ deps) =
      let decision = λ (finding : VulnerabilityFinding float).
        exception_decision float url platform finding dep repo_path exceptions now in
      let (findings, diagnostics) = annotate_findings decision dep dep.vulnerabilities in
      let (rest, others) = annotate_dependencies exceptions now repo_path deps in
      (record dep { vulnerabilities = findings } ∷ rest, diagnostics ++ others)

  -- `ApplyVulnerabilityExceptions` on a report: the dependencies after it, and the diagnostics.
  unfoldable pub apply_exceptions :
      Report float → List VulnerabilityException → platform.Instant → Report float × List Str
  apply_exceptions report [] now = (report, [])
  apply_exceptions report (exception ∷ exceptions) now =
      let normalized = normalize_exceptions (exception ∷ exceptions) in
      let (dependencies, diagnostics) =
        annotate_dependencies normalized now report.repo_path report.dependencies in
      (record report { dependencies = dependencies }, sorted_unique_strings diagnostics)
