-- ===== src/Vulnerability/Suppression.antt =====
-- internal/report/vulnerability.go: the findings that `ApplyVulnerabilityExceptions` leaves suppressed.
use lopper.Prelude.{
  true, false, List, [], ◌∷◌, ◌++◌, Option, none, some, ◌≡◌, All, All-map, arith, inl, inr,
}
use lopper.Text.{Str}
use lopper.Float.{Float64}
use lopper.Purl.{Url}
use lopper.Model.Dependency.{DependencyReport, VulnerabilityFinding, VulnerabilityExceptionDecision}
use lopper.Merge.Reports.{Report}
use lopper.Vulnerability.Scores.{finding_suppressed}
use lopper.Vulnerability.Ecosystems.{dependency_advisory_ecosystem}
use lopper.Vulnerability.Exceptions.{
  VulnerabilityException, Platform, normalize_exceptions, exception_matches, exception_expired,
  id_matches, purl_matches, has_path_evidence, decide, exception_decision,
}
use lopper.Vulnerability.Applying.{
  annotate_finding, annotate_findings, annotate_dependencies, apply_exceptions,
}
use lopper.Vulnerability.Decisions.{Decided, exception_decision-best}

module _ (float : Float64) (url : Url) (platform : Platform) where
  -- Where a finding is suppressed, one of the exceptions matches it and has not expired.
  abbrev pub HasExcuse :
      List VulnerabilityException
      → platform.Instant
      → Str
      → DependencyReport float
      → VulnerabilityFinding float
      → Type 0
  HasExcuse exceptions now repo_path dep finding =
      finding_suppressed float finding ≡ true
      → (before : List VulnerabilityException) × (exception : VulnerabilityException)
        × (after : List VulnerabilityException) × (exceptions ≡ before ++ exception ∷ after)
        × (exception_matches float url platform exception finding dep repo_path ≡ true)
        × (exception_expired float url platform exception.expires now ≡ false)

  -- No decision was made on the findings.
  abbrev pub IsUndecided : List (VulnerabilityFinding float) → Type 0
  IsUndecided findings =
      All (λ (finding : VulnerabilityFinding float). finding.decision ≡ none) findings

  annotate_finding-HasExcuse :
      (exceptions : List VulnerabilityException) (now : platform.Instant) (repo_path : Str)
      (dep : DependencyReport float) (finding : VulnerabilityFinding float)
      (decision : Option VulnerabilityExceptionDecision)
      → finding.decision ≡ none
      → Decided float url platform
          (λ exception. exception_matches float url platform exception finding dep repo_path)
          exceptions
          now
          decision
      → HasExcuse exceptions now repo_path dep
          (annotate_finding float url platform dep finding decision).0
  unfolding annotate_finding finding_suppressed decide exception_matches id_matches
  annotate_finding-HasExcuse exceptions now repo_path dep finding none undecided decided
        suppressed =
      ground (arith, undecided, suppressed)
  annotate_finding-HasExcuse exceptions now repo_path dep finding (some decision) undecided decided
        suppressed =
      elim decided [
        | inl (absent, _) ↦ ground (arith, absent)
        | inr (before, best, after, e, v, found) ↦
            (before, best, after, e, v.fits, ground (arith, found, suppressed))
      ]

  annotate_findings-HasExcuse :
      (exceptions : List VulnerabilityException) (now : platform.Instant) (repo_path : Str)
      (dep : DependencyReport float) (findings : List (VulnerabilityFinding float))
      → IsUndecided findings
      → All
          (HasExcuse exceptions now repo_path dep)
          (annotate_findings float url platform
            (λ (finding : VulnerabilityFinding float).
              exception_decision float url platform finding dep repo_path exceptions now)
            dep
            findings).0
  unfolding annotate_findings
  annotate_findings-HasExcuse exceptions now repo_path dep [] h = tt
  annotate_findings-HasExcuse exceptions now repo_path dep (finding ∷ findings) h = (
    annotate_finding-HasExcuse exceptions now repo_path dep finding _ h.0
        (exception_decision-best float url platform finding dep repo_path exceptions now),
    annotate_findings-HasExcuse exceptions now repo_path dep findings h.1,
  )

  -- All findings of all dependencies.
  abbrev pub Excused :
      List VulnerabilityException → platform.Instant → Str → List (DependencyReport float) → Type 0
  Excused exceptions now repo_path = All (λ (dep : DependencyReport float).
      All (HasExcuse exceptions now repo_path dep) dep.vulnerabilities)

  annotate_dependencies-Excused :
      (exceptions : List VulnerabilityException) (now : platform.Instant) (repo_path : Str)
      (deps : List (DependencyReport float))
      → All (λ (dep : DependencyReport float). IsUndecided dep.vulnerabilities) deps
      → Excused exceptions now repo_path
          (annotate_dependencies float url platform exceptions now repo_path deps).0
  unfolding annotate_dependencies exception_matches purl_matches has_path_evidence
      dependency_advisory_ecosystem
  annotate_dependencies-Excused exceptions now repo_path [] h = tt
  annotate_dependencies-Excused exceptions now repo_path (dep ∷ deps) h = (
    annotate_findings-HasExcuse exceptions now repo_path dep dep.vulnerabilities h.0,
    annotate_dependencies-Excused exceptions now repo_path deps h.1,
  )

  undecided-HasExcuse :
      (exceptions : List VulnerabilityException) (now : platform.Instant) (repo_path : Str)
      (dep : DependencyReport float) (finding : VulnerabilityFinding float)
      → finding.decision ≡ none
      → HasExcuse exceptions now repo_path dep finding
  unfolding finding_suppressed
  undecided-HasExcuse exceptions now repo_path dep finding h suppressed = ground arith

  -- Where no decision was made on a report's findings, a finding that is suppressed after
  -- `ApplyVulnerabilityExceptions` is so by one of the exceptions, which matches it and has not
  -- expired.
  pub apply_exceptions-Excused :
      (report : Report float) (exceptions : List VulnerabilityException) (now : platform.Instant)
      → All (λ (dep : DependencyReport float). IsUndecided dep.vulnerabilities) report.dependencies
      → Excused
          (normalize_exceptions exceptions)
          now
          report.repo_path
          (apply_exceptions float url platform report exceptions now).0.dependencies
  unfolding apply_exceptions
  apply_exceptions-Excused report [] now h =
      All-map (λ dep. All-map (undecided-HasExcuse _ now report.repo_path dep) dep.vulnerabilities)
        report.dependencies h
  apply_exceptions-Excused report (exception ∷ exceptions) now h =
      annotate_dependencies-Excused (normalize_exceptions (exception ∷ exceptions)) now
        report.repo_path report.dependencies h
