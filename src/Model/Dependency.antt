-- ===== src/Model/Dependency.antt =====
-- internal/report/model/dependency.go: the report on one dependency.
use lopper.Prelude.{ℕ, Bool, List, Option}
use lopper.Float.{Float64}
use lopper.Text.{Str}
use lopper.Model.Parts.{
  ImportUse, SymbolRef, SymbolUsage, RiskCue, Recommendation, CodemodReport, RuntimeUsage,
}

-- `DependencyIdentity`.
pub record DependencyIdentity : Type 0 where
  pub ecosystem : Str
  pub name : Str
  pub namespace : Str
  pub version : Str
  pub version_status : Str
  pub purl : Str
  pub purl_status : Str
  pub source : Str
  pub confidence : Str
  pub evidence : List Str
  pub conflicts : List Str

-- `DependencyLicense`.
pub record DependencyLicense : Type 0 where
  pub spdx : Str
  pub raw : Str
  pub source : Str
  pub confidence : Str
  pub unknown : Bool
  pub denied : Bool
  pub evidence : List Str

-- `DependencyProvenance`.
pub record DependencyProvenance : Type 0 where
  pub source : Str
  pub confidence : Str
  pub signals : List Str

-- `VulnerabilityExceptionDecision`.
pub record VulnerabilityExceptionDecision : Type 0 where
  pub status : Str
  pub justification : Str
  pub owner : Str
  pub reason : Str
  pub scope : Str
  pub expires : Str
  pub source : Str
  pub expired : Bool

module _ (float : Float64) where
  -- `RemovalCandidateWeights` and `RemovalCandidate`.
  pub record RemovalCandidateWeights : Type 0 where
    pub usage : float.Carrier
    pub impact : float.Carrier
    pub confidence : float.Carrier

  pub record RemovalCandidate : Type 0 where
    pub score : float.Carrier
    pub usage : float.Carrier
    pub impact : float.Carrier
    pub confidence : float.Carrier
    pub weights : RemovalCandidateWeights
    pub rationale : List Str

  -- `ReachabilitySignal` and `ReachabilityConfidence`.
  pub record ReachabilitySignal : Type 0 where
    pub code : Str
    pub score : float.Carrier
    pub weight : float.Carrier
    pub contribution : float.Carrier
    pub rationale : Str

  pub record ReachabilityConfidence : Type 0 where
    pub model : Str
    pub score : float.Carrier
    pub summary : Str
    pub rationale_codes : List Str
    pub signals : List ReachabilitySignal

  -- `VulnerabilityFinding`.
  pub record VulnerabilityFinding : Type 0 where
    pub advisory_id : Str
    pub package_name : Str
    pub severity : Str
    pub version_status : Str
    pub fixed_version : Str
    pub source : Str
    pub priority : Str
    pub priority_score : float.Carrier
    pub reachable : Bool
    pub decision : Option VulnerabilityExceptionDecision
    pub evidence : List Str

  -- `DependencyReport`.
  pub record DependencyReport : Type 0 where
    pub language : Str
    pub name : Str
    pub identity : Option DependencyIdentity
    pub used_exports_count : ℕ
    pub total_exports_count : ℕ
    pub used_percent : float.Carrier
    pub estimated_unused_bytes : ℕ
    pub top_used_symbols : List SymbolUsage
    pub used_imports : List ImportUse
    pub unused_imports : List ImportUse
    pub unused_exports : List SymbolRef
    pub risk_cues : List RiskCue
    pub recommendations : List Recommendation
    pub codemod : Option CodemodReport
    pub runtime_usage : Option RuntimeUsage
    pub reachability_confidence : Option ReachabilityConfidence
    pub removal_candidate : Option RemovalCandidate
    pub usage_incomplete : Bool
    pub vulnerabilities : List VulnerabilityFinding
    pub license : Option DependencyLicense
    pub provenance : Option DependencyProvenance
    pub suppressed_unused_imports : List ImportUse
