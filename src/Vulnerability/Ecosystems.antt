-- ===== src/Vulnerability/Ecosystems.antt =====
-- internal/report/vulnerability.go: the ecosystem and the name by which a dependency meets an advisory
-- or an exception.
use lopper.Prelude.{Bool, not, ◌&&◌, List, [], ◌∷◌, ◌++◌, none, some, if◌then◌else◌}
use lopper.Text.{Str, codes, str_eq, trim_space}
use lopper.Float.{Float64}
use lopper.Purl.{is_one_of, canonical_package_name}
use lopper.Model.Dependency.{DependencyReport, DependencyIdentity}
use lopper.Vulnerability.Ranks.{lowered}

-- `dependencyEcosystem`.
unfoldable pub dependency_ecosystem : Str → Str
dependency_ecosystem language =
    let l = lowered language in
    if str_eq l (codes "js-ts")
    then codes "npm"
    else if str_eq l (codes "python")
    then codes "pypi"
    else if str_eq l (codes "go")
    then codes "go"
    else if str_eq l (codes "rust")
    then codes "crates.io"
    else if str_eq l (codes "php")
    then codes "packagist"
    else if str_eq l (codes "dart")
    then codes "pub"
    else if str_eq l (codes "ruby")
    then codes "rubygems"
    else if str_eq l (codes "elixir")
    then codes "hex"
    else if str_eq l (codes "swift")
    then codes "swifturl"
    else if is_one_of l (codes "jvm" ∷ codes "kotlin-android" ∷ [])
    then codes "maven"
    else if str_eq l (codes "dotnet")
    then codes "nuget"
    else l

-- `normalizeEcosystem`; the cases that give back their own text are those of the default.
unfoldable pub normalize_ecosystem : Str → Str
normalize_ecosystem value =
    let v = lowered value in
    if str_eq v (codes "golang")
    then codes "go"
    else if is_one_of v (codes "crates.io" ∷ codes "crates" ∷ codes "cargo" ∷ [])
    then codes "crates.io"
    else if is_one_of v (codes "packagist" ∷ codes "composer" ∷ [])
    then codes "packagist"
    else if is_one_of v (codes "ruby" ∷ codes "rubygems" ∷ codes "gem" ∷ [])
    then codes "rubygems"
    else if is_one_of v (codes "elixir" ∷ codes "hex" ∷ [])
    then codes "hex"
    else if is_one_of v (codes "swifturl" ∷ codes "swift" ∷ [])
    then codes "swifturl"
    else v

abbrev pub or_text : Str → Str → Str
or_text [] fallback = fallback
or_text (c ∷ s) fallback = c ∷ s

-- `firstNonBlank`.
unfoldable pub first_non_blank : List Str → Str
first_non_blank [] = []
first_non_blank (value ∷ values) = or_text (trim_space value) (first_non_blank values)

-- `dependencyPackageNameForAdvisoryMatch`.
unfoldable pub advisory_match_name : DependencyIdentity → Str → Str → Str
advisory_match_name identity fallback ecosystem =
    let name = trim_space identity.name in
    let namespace = trim_space identity.namespace in
    if str_eq (normalize_ecosystem ecosystem) (codes "maven")
      && not (str_eq name [])
      && not (str_eq namespace [])
    then namespace ++ codes ":" ++ name
    else or_text name (trim_space fallback)

-- `packageNamesMatch`.
unfoldable pub package_names_match : Str → Str → Str → Bool
package_names_match advisory_package dependency_name ecosystem =
    let left = canonical_package_name ecosystem advisory_package in
    not (str_eq left []) && str_eq left (canonical_package_name ecosystem dependency_name)

module _ (float : Float64) where
  -- `dependencyAdvisoryEcosystem`.
  unfoldable pub dependency_advisory_ecosystem : DependencyReport float → Str
  dependency_advisory_ecosystem dep = elim dep.identity [
    | none ↦ dependency_ecosystem dep.language
    | some identity ↦
        or_text (normalize_ecosystem identity.ecosystem) (dependency_ecosystem dep.language)
  ]
