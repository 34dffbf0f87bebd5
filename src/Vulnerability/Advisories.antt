-- ===== src/Vulnerability/Advisories.antt =====
-- internal/report/vulnerability.go: whether an advisory is about a dependency.
use lopper.Prelude.{not, ◌&&◌, [], ◌∷◌, ◌++◌, none, some, if◌then◌else◌, Bool, true, false}
use lopper.Text.{Str, codes, str_eq, trim_space}
use lopper.Float.{Float64}
use lopper.Semver.{Semver}
use lopper.Model.Dependency.{DependencyReport}
use lopper.Osv.Match.{
  Advisory, VersionMatch, unaffected, affected, unevaluable, advisory_version_match,
  has_osv_version_metadata,
}
use lopper.Vulnerability.Ecosystems.{
  normalize_ecosystem, first_non_blank, advisory_match_name, package_names_match,
  dependency_advisory_ecosystem, or_text,
}

module _ (float : Float64) where
  -- The name and the version of a dependency that `advisoryMatchState` compares.
  unfoldable pub matched_name : DependencyReport float → Str
  matched_name dep = elim dep.identity [
    | none ↦ dep.name
    | some identity ↦
        or_text (advisory_match_name identity dep.name (dependency_advisory_ecosystem float dep))
          dep.name
  ]

  unfoldable pub matched_version : DependencyReport float → Str
  matched_version dep = elim dep.identity [
    | none ↦ []
    | some identity ↦ trim_space identity.version
  ]

  -- `advisoryMatchState`.
  unfoldable pub advisory_match_state : Semver → Advisory → DependencyReport float → VersionMatch
  advisory_match_state semver advisory dep =
      let ecosystem = dependency_advisory_ecosystem float dep in
      let named = normalize_ecosystem advisory.ecosystem in
      if not (package_names_match advisory.package_name (matched_name dep) ecosystem)
      then unaffected
      else if not (str_eq named []) && not (str_eq named ecosystem)
      then unaffected
      else advisory_version_match semver advisory (matched_version dep)

  -- `advisoryMatchesDependency`.
  unfoldable pub advisory_matches_dependency : Semver → Advisory → DependencyReport float → Bool
  advisory_matches_dependency semver advisory dep =
      elim (advisory_match_state semver advisory dep) [
        | unaffected ↦ false
        | affected ↦ true
        | unevaluable ↦ true
      ]

  -- The name that `advisoryVersionEvaluationWarning` writes.
  unfoldable pub warned_name : DependencyReport float → Str → Str
  warned_name dep ecosystem = elim dep.identity [
    | none ↦ dep.name
    | some identity ↦
        first_non_blank (advisory_match_name identity dep.name ecosystem ∷ dep.name ∷ [])
  ]

  -- `advisoryVersionEvaluationWarning`.
  unfoldable pub version_evaluation_warning : Advisory → DependencyReport float → Str
  version_evaluation_warning advisory dep =
      let ecosystem =
        first_non_blank (dependency_advisory_ecosystem float dep ∷ codes "unknown" ∷ []) in
      let version = first_non_blank (matched_version dep ∷ codes "unknown" ∷ []) in
      if not (has_osv_version_metadata advisory)
      then codes "unable to evaluate advisory version metadata for "
        ++ advisory.id
        ++ codes " on "
        ++ ecosystem
        ++ codes "/"
        ++ warned_name dep ecosystem
        ++ codes "@"
        ++ version
      else codes "unable to evaluate OSV advisory "
        ++ advisory.id
        ++ codes " for "
        ++ ecosystem
        ++ codes "/"
        ++ warned_name dep ecosystem
        ++ codes "@"
        ++ version
