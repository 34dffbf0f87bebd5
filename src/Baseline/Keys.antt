-- ===== src/Baseline/Keys.antt =====
-- internal/report/baseline_diff.go: the keys by which dependencies are paired. The verbs `%020d` and
-- `%020.6f` of package fmt: the first is written out, the second is a parameter.
use lopper.Prelude.{
  ◌+◌, ◌-◌, Bool, true, false, not, ◌||◌, List, [], ◌∷◌, ◌++◌, Option, none, some, map, length,
  if◌then◌else◌,
}
use lopper.Prelude.Int.{ℤ, pos, negsuc}
use lopper.Text.{Str, codes, str_eq, trim_space}
use lopper.Text.Split.{join}
use lopper.Text.Ascending.{sort_strings}
use lopper.Float.{Float64}
use lopper.Model.Parts.{
  RuntimeUsage, RuntimeModuleUsage, Correlation, static_only, runtime_only, overlap, unset, other,
}
use lopper.Model.Dependency.{
  DependencyReport, DependencyIdentity, DependencyLicense, VulnerabilityFinding,
}
use lopper.Merge.Advice.{decimal, zeros}
use lopper.Vulnerability.Scores.{finding_key}
use lopper.Purl.{
  Url, canonical_package_ecosystem, canonical_package_name, canonical_purl,
  versionless_canonical_purl,
}

-- `%020d`: at least twenty places, the sign first.
unfoldable pub padded : ℤ → Str
padded (pos n) = let digits = decimal n in zeros (20 - length digits) ++ digits
padded (negsuc n) = let digits = decimal (n + 1) in b'-' ∷ zeros (19 - length digits) ++ digits

abbrev pub is_blank : Str → Bool
is_blank s = str_eq (trim_space s) []

abbrev pub is_nonempty {ℓ} : {A : Type ℓ} → List A → Bool
is_nonempty [] = false
is_nonempty (item ∷ items) = true

-- `%t`.
abbrev pub truth : Bool → Str
truth true = codes "true"
truth false = codes "false"

-- The text of a correlation.
abbrev pub correlation_text : Correlation → Str
correlation_text static_only = codes "static-only"
correlation_text runtime_only = codes "runtime-only"
correlation_text overlap = codes "overlap"
correlation_text unset = []
correlation_text (other text) = text

abbrev denied_flag : Bool → Str
denied_flag true = codes "1"
denied_flag false = codes "0"

-- `dependencyLicensePairingKey`.
unfoldable pub license_pairing_key : Option DependencyLicense → Str
license_pairing_key none = []
license_pairing_key (some license) = join 0 (
    denied_flag license.denied
    ∷ trim_space license.spdx
    ∷ trim_space license.raw
    ∷ trim_space license.source
    ∷ trim_space license.confidence
    ∷ [])

-- `runtimeModuleUsagePairingKey`; no text joins no keys.
unfoldable pub module_usage_pairing_key : List RuntimeModuleUsage → Str
module_usage_pairing_key items = join 1 (
    sort_strings
      (map (λ item. join 0 (trim_space item.module_name ∷ padded (pos item.count) ∷ [])) items))

-- `dependencyRuntimePairingKey`.
unfoldable pub runtime_pairing_key : Option RuntimeUsage → Str
runtime_pairing_key none = []
runtime_pairing_key (some usage) = join 0 (
    padded (pos usage.load_count)
    ∷ correlation_text usage.correlation
    ∷ truth usage.runtime_only
    ∷ module_usage_pairing_key usage.modules
    ∷ module_usage_pairing_key usage.parent_modules
    ∷ module_usage_pairing_key usage.entrypoints
    ∷ [])

-- `dependencyHasStableIdentity` of an identity.
unfoldable pub is_stable : Option DependencyIdentity → Bool
is_stable none = false
is_stable (some identity) =
    is_nonempty identity.evidence
    || is_nonempty identity.conflicts
    || not (is_blank identity.purl)
    || not (is_blank identity.namespace)
    || not (is_blank identity.version)

-- The key of an identity that has no package URL, if it has an ecosystem and a name.
unfoldable pub identity_key : DependencyIdentity → Option Str
identity_key identity =
    let ecosystem = canonical_package_ecosystem identity.ecosystem in
    let name = canonical_package_name ecosystem identity.name in
    let namespace = trim_space identity.namespace in
    if str_eq ecosystem [] || str_eq name []
    then none
    else if str_eq namespace []
    then some (join 0 (codes "identity" ∷ ecosystem ∷ name ∷ []))
    else some (join 0 (codes "identity" ∷ ecosystem ∷ namespace ∷ name ∷ []))

abbrev or_else : Option Str → Str → Str
or_else none s = s
or_else (some t) s = t

-- The fields of an identity in the order of `DependencyPairingOrderKey`; empty texts for none.
unfoldable pub identity_parts : Url → Option DependencyIdentity → List Str
identity_parts url none = [] ∷ [] ∷ [] ∷ [] ∷ [] ∷ [] ∷ [] ∷ [] ∷ [] ∷ []
identity_parts url (some identity) =
    canonical_purl url identity.purl
    ∷ canonical_package_ecosystem identity.ecosystem
    ∷ trim_space identity.namespace
    ∷ trim_space identity.name
    ∷ trim_space identity.version
    ∷ trim_space identity.version_status
    ∷ trim_space identity.purl_status
    ∷ trim_space identity.source
    ∷ trim_space identity.confidence
    ∷ []

module _ (float : Float64) (url : Url) where
  -- `dependencyHasStableIdentity`.
  abbrev pub has_stable_identity : DependencyReport float → Bool
  has_stable_identity dep = is_stable dep.identity

  -- `DependencyVersionlessKey`.
  unfoldable pub versionless_key : DependencyReport float → Str
  versionless_key dep =
      let plain = dep.language ++ 0 ∷ dep.name in
      if not (has_stable_identity dep) then plain else elim dep.identity [
        | none ↦ plain
        | some identity ↦
            if not (is_blank identity.purl)
            then codes "purl" ++ 0 ∷ versionless_canonical_purl url identity.purl
            else or_else (identity_key identity) plain
      ]

  -- `dependencyResidualIdentityKey`.
  unfoldable pub residual_identity_key : DependencyReport float → Str
  residual_identity_key dep =
      let ends = trim_space dep.language ∷ trim_space dep.name ∷ [] in
      elim dep.identity [
        | none ↦ join 0 (versionless_key dep ∷ ends)
        | some identity ↦ join 0 (versionless_key dep ∷ identity_parts url (some identity) ++ ends)
      ]

  module _ (format_float : float.Carrier → Str) where
    -- `dependencyVulnerabilityPairingKey`.
    unfoldable pub vulnerability_pairing_key : List (VulnerabilityFinding float) → Str
    vulnerability_pairing_key findings = join 1 (
        sort_strings (
          map
            (λ finding. join 0 (
              finding_key float finding
              ∷ format_float finding.priority_score
              ∷ trim_space finding.priority
              ∷ trim_space finding.severity
              ∷ []))
            findings))

    -- `DependencyPairingOrderKey`.
    unfoldable pub pairing_order_key : DependencyReport float → Str
    pairing_order_key dep = join 0 (
        versionless_key dep ∷ identity_parts url dep.identity
        ++ trim_space dep.language
          ∷ trim_space dep.name
          ∷ license_pairing_key dep.license
          ∷ vulnerability_pairing_key dep.vulnerabilities
          ∷ runtime_pairing_key dep.runtime_usage
          ∷ padded (pos dep.estimated_unused_bytes)
          ∷ padded (pos dep.used_exports_count)
          ∷ padded (pos dep.total_exports_count)
          ∷ format_float dep.used_percent
          ∷ [])
