-- ===== src/Summary/Licenses.antt =====
-- internal/report/summary.go: `ComputeSummary`.
use lopper.Prelude.{
  ℕ, ◌+◌, Bool, true, false, ◌||◌, List, [], ◌∷◌, Option, none, some, ltb, ◌==◌, if◌then◌else◌,
  length,
}
use lopper.Text.{Str, codes, str_eq, trim_space}
use lopper.Float.{Float64, percent_of, round_to_tenth}
use lopper.Model.Dependency.{DependencyReport, DependencyLicense, ReachabilityConfidence}
use lopper.Summary.Vulnerabilities.{
  Builder, new_builder, add_findings, summary, VulnerabilitySummary,
}

-- The three counters of licenses.
pub record LicenseCounts : Type 0 where
  pub known : ℕ
  pub unknown : ℕ
  pub denied : ℕ

abbrev pub is_denied : Option DependencyLicense → Bool
is_denied none = false
is_denied (some license) = license.denied

abbrev is_unknown : Option DependencyLicense → Bool
is_unknown none = true
is_unknown (some license) = license.unknown || str_eq (trim_space license.spdx) []

-- `updateLicenseSummary`.
unfoldable pub update_licenses : LicenseCounts → Option DependencyLicense → LicenseCounts
update_licenses c license =
    if is_denied license
    then record c { denied = c.denied + 1 }
    else if is_unknown license
    then record c { unknown = c.unknown + 1 }
    else record c { known = c.known + 1 }

module _ (float : Float64) where
  -- `confidenceRollupStats`.
  pub record RollupStats : Type 0 where
    pub count : ℕ
    pub total : float.Carrier
    pub lowest : float.Carrier
    pub highest : float.Carrier

  -- `ReachabilityRollup`.
  pub record ReachabilityRollup : Type 0 where
    pub model : Str
    pub average_score : float.Carrier
    pub lowest_score : float.Carrier
    pub highest_score : float.Carrier

  -- `updateConfidenceRollupStats`.
  unfoldable pub update_stats : RollupStats → Option (ReachabilityConfidence float) → RollupStats
  update_stats stats none = stats
  update_stats stats (some confidence) = record {
    count = stats.count + 1;
    total = float.add stats.total confidence.score;
    lowest =
        if stats.count == 0 || float.lt confidence.score stats.lowest
        then confidence.score
        else stats.lowest;
    highest =
        if stats.count == 0 || float.lt stats.highest confidence.score
        then confidence.score
        else stats.highest;
  }

  -- `buildConfidenceRollup`.
  unfoldable pub build_rollup : RollupStats → Option ReachabilityRollup
  build_rollup stats =
      if stats.count == 0
      then none
      else some (record {
        model = codes "reachability-v2";
        average_score = round_to_tenth float (float.div stats.total (float.of_nat stats.count));
        lowest_score = round_to_tenth float stats.lowest;
        highest_score = round_to_tenth float stats.highest;
      })

  -- `Summary`.
  pub record Summary : Type 0 where
    pub dependency_count : ℕ
    pub used_exports_count : ℕ
    pub total_exports_count : ℕ
    pub used_percent : float.Carrier
    pub licenses : LicenseCounts
    pub reachability : Option ReachabilityRollup
    pub vulnerabilities : Option VulnerabilitySummary

  -- What the loop of `ComputeSummary` keeps.
  pub record State : Type 0 where
    pub used : ℕ
    pub total : ℕ
    pub licenses : LicenseCounts
    pub stats : RollupStats
    pub findings : Builder

  abbrev pub start : State
  start = record {
    used = 0;
    total = 0;
    licenses = record { known = 0; unknown = 0; denied = 0 };
    stats = record {
      count = 0;
      total = float.of_nat 0;
      lowest = float.of_nat 0;
      highest = float.of_nat 0;
    };
    findings = new_builder;
  }

  -- That loop.
  unfoldable pub summarize : State → List (DependencyReport float) → State
  summarize s [] = s
  summarize s (dep ∷ deps) =
      summarize
        (record {
          used = s.used + dep.used_exports_count;
          total = s.total + dep.total_exports_count;
          licenses = update_licenses s.licenses dep.license;
          stats = update_stats s.stats dep.reachability_confidence;
          findings = add_findings float s.findings dep.vulnerabilities;
        })
        deps

  abbrev summary_of : ℕ → State → Summary
  summary_of dependency_count s = record {
    dependency_count = dependency_count;
    used_exports_count = s.used;
    total_exports_count = s.total;
    used_percent = if ltb 0 s.total then percent_of float s.used s.total else float.of_nat 0;
    licenses = s.licenses;
    reachability = build_rollup s.stats;
    vulnerabilities = summary s.findings;
  }

  -- `ComputeSummary`.
  unfoldable pub compute_summary : List (DependencyReport float) → Option Summary
  compute_summary [] = none
  compute_summary (dep ∷ deps) =
      some (summary_of (length (dep ∷ deps)) (summarize start (dep ∷ deps)))
