-- ===== src/Baseline/Deltas.antt =====
-- internal/report/baseline_diff.go: what changed in a dependency, by its pair, and the lists of a
-- comparison. Two floats are equal where neither is above the other; none is equal to NaN.
use lopper.Prelude.{
  ℕ, zero, suc, ◌+◌, Bool, true, false, not, ◌&&◌, List, [], ◌∷◌, ◌++◌, Option, none, some, any,
  ltb, ◌==◌, if◌then◌else◌,
}
use lopper.Prelude.Int.{ℤ, pos, negsuc, difference, eqb_ℤ}
use lopper.Prelude.Sort.{sort_by, is_lt}
use lopper.Prelude.Counts.{count_if, keep_if}
use lopper.Text.{Str, str_eq, trim_space, compare_str}
use lopper.Float.{Float64, percent_of}
use lopper.Model.Dependency.{DependencyReport, DependencyLicense, VulnerabilityFinding}
use lopper.Vulnerability.Scores.{finding_key, finding_less, finding_suppressed}
use lopper.Purl.{Url}
use lopper.Baseline.Keys.{is_nonempty, versionless_key}
use lopper.Baseline.Pairing.{Slot, Pair}
use lopper.Baseline.Runtime.{RuntimeDelta, runtime_delta, is_regression, is_improvement}

-- `DependencyDeltaKind`.
pub data DeltaKind : Type 0 where
  added removed changed : DeltaKind

-- `DeniedLicenseDelta`.
pub record DeniedLicenseDelta : Type 0 where
  pub language : Str
  pub name : Str
  pub spdx : Str

abbrev pub is_denied : Option DependencyLicense → Bool
is_denied none = false
is_denied (some license) = license.denied

abbrev spdx_of : Option DependencyLicense → Str
spdx_of none = []
spdx_of (some license) = license.spdx

abbrev minus : ℕ → ℤ
minus zero = pos 0
minus (suc n) = negsuc n

module _ (float : Float64) where
  -- `DependencyDelta`; an ordinal of -1 is `none`.
  pub record DependencyDelta : Type 0 where
    pub kind : DeltaKind
    pub language : Str
    pub name : Str
    pub used_exports_count_delta : ℤ
    pub total_exports_count_delta : ℤ
    pub used_percent_delta : float.Carrier
    pub estimated_unused_bytes_delta : ℤ
    pub waste_percent_delta : float.Carrier
    pub runtime_delta : Option RuntimeDelta
    pub denied_introduced : Bool
    pub reachable_count_delta : ℤ
    pub reachable_introduced : Bool
    pub dependency_key : Str
    pub current_ordinal : Option ℕ
    pub baseline_ordinal : Option ℕ

  abbrev pub is_zero : float.Carrier → Bool
  is_zero x = float.le x (float.of_nat 0) && float.le (float.of_nat 0) x

  -- `wasteFromDependency`.
  unfoldable pub waste_from_dependency : DependencyReport float → float.Carrier
  waste_from_dependency dep =
      if dep.total_exports_count == 0
      then float.of_nat 0
      else float.sub (float.of_nat 100) (
          if float.le dep.used_percent (float.of_nat 0)
          then percent_of float dep.used_exports_count dep.total_exports_count
          else dep.used_percent)

  -- A finding that counts: reachable and not suppressed.
  unfoldable pub is_open : VulnerabilityFinding float → Bool
  is_open finding = finding.reachable && not (finding_suppressed float finding)

  -- `reachableVulnerabilityCount`.
  unfoldable pub reachable_count : List (VulnerabilityFinding float) → ℕ
  reachable_count findings = count_if is_open findings

  -- The test of the loops of `newReachableVulnerabilityFindings`.
  unfoldable pub is_new_finding :
      List (VulnerabilityFinding float) → VulnerabilityFinding float → Bool
  is_new_finding baseline finding =
      is_open finding
      && not (
          any (λ old. is_open old && str_eq (finding_key float old) (finding_key float finding))
            baseline)

  -- `newReachableVulnerabilityFindings`.
  unfoldable pub new_reachable_findings :
      List (VulnerabilityFinding float)
      → List (VulnerabilityFinding float)
      → List (VulnerabilityFinding float)
  new_reachable_findings current baseline =
      sort_by (finding_less float) (keep_if (is_new_finding baseline) current)

  -- `dependencyDelta` with a current dependency only.
  unfoldable pub added_delta : DependencyReport float → DependencyDelta
  added_delta curr = record {
    kind = added;
    language = curr.language;
    name = curr.name;
    used_exports_count_delta = pos curr.used_exports_count;
    total_exports_count_delta = pos curr.total_exports_count;
    used_percent_delta = curr.used_percent;
    estimated_unused_bytes_delta = pos curr.estimated_unused_bytes;
    waste_percent_delta = waste_from_dependency curr;
    runtime_delta = none;
    denied_introduced = is_denied curr.license;
    reachable_count_delta = pos (reachable_count curr.vulnerabilities);
    reachable_introduced = ltb 0 (reachable_count curr.vulnerabilities);
    dependency_key = [];
    current_ordinal = none;
    baseline_ordinal = none;
  }

  -- With a baseline dependency only.
  unfoldable pub removed_delta : DependencyReport float → DependencyDelta
  removed_delta base = record {
    kind = removed;
    language = base.language;
    name = base.name;
    used_exports_count_delta = minus base.used_exports_count;
    total_exports_count_delta = minus base.total_exports_count;
    used_percent_delta = float.neg base.used_percent;
    estimated_unused_bytes_delta = minus base.estimated_unused_bytes;
    waste_percent_delta = float.neg (waste_from_dependency base);
    runtime_delta = none;
    denied_introduced = false;
    reachable_count_delta = minus (reachable_count base.vulnerabilities);
    reachable_introduced = false;
    dependency_key = [];
    current_ordinal = none;
    baseline_ordinal = none;
  }

  -- With both.
  unfoldable pub changed_delta : DependencyReport float → DependencyReport float → DependencyDelta
  changed_delta curr base = record {
    kind = changed;
    language = curr.language;
    name = curr.name;
    used_exports_count_delta = difference curr.used_exports_count base.used_exports_count;
    total_exports_count_delta = difference curr.total_exports_count base.total_exports_count;
    used_percent_delta = float.sub curr.used_percent base.used_percent;
    estimated_unused_bytes_delta =
        difference curr.estimated_unused_bytes base.estimated_unused_bytes;
    waste_percent_delta = float.sub (waste_from_dependency curr) (waste_from_dependency base);
    runtime_delta = (runtime_delta curr.runtime_usage base.runtime_usage).0;
    denied_introduced = is_denied curr.license && not (is_denied base.license);
    reachable_count_delta =
        difference (reachable_count curr.vulnerabilities) (reachable_count base.vulnerabilities);
    reachable_introduced =
        is_nonempty (new_reachable_findings curr.vulnerabilities base.vulnerabilities);
    dependency_key = [];
    current_ordinal = none;
    baseline_ordinal = none;
  }

  -- The last test of `dependencyDelta`.
  unfoldable pub is_unchanged : DependencyDelta → Bool → Bool
  is_unchanged delta runtime_changed =
      eqb_ℤ delta.used_exports_count_delta (pos 0)
      && eqb_ℤ delta.total_exports_count_delta (pos 0)
      && is_zero delta.used_percent_delta
      && eqb_ℤ delta.estimated_unused_bytes_delta (pos 0)
      && not runtime_changed
      && not delta.denied_introduced
      && not delta.reachable_introduced
      && eqb_ℤ delta.reachable_count_delta (pos 0)

  -- `dependencyDelta` of a dependency on both sides: none where nothing changed.
  unfoldable pub delta_of_both :
      DependencyReport float → DependencyReport float → Option DependencyDelta
  delta_of_both curr base =
      let delta = changed_delta curr base in
      if is_unchanged delta (runtime_delta curr.runtime_usage base.runtime_usage).1
      then none
      else some delta

  -- `DependencyDelta` lists and the counter of `BaselineComparison`.
  pub record DeltaLists : Type 0 where
    pub dependencies : List DependencyDelta
    pub regressions : List DependencyDelta
    pub progressions : List DependencyDelta
    pub runtime_regressions : List DependencyDelta
    pub runtime_improvements : List DependencyDelta
    pub added : List DependencyDelta
    pub removed : List DependencyDelta
    pub unchanged_rows : ℕ

  abbrev pub no_deltas : DeltaLists
  no_deltas = record {
    dependencies = [];
    regressions = [];
    progressions = [];
    runtime_regressions = [];
    runtime_improvements = [];
    added = [];
    removed = [];
    unchanged_rows = 0;
  }

  abbrev snoc_if : Bool → List DependencyDelta → DependencyDelta → List DependencyDelta
  snoc_if true deltas delta = deltas ++ delta ∷ []
  snoc_if false deltas delta = deltas

  abbrev pub append_kind : DeltaKind → DeltaLists → DependencyDelta → DeltaLists
  append_kind added c delta = record c { added = c.added ++ delta ∷ [] }
  append_kind removed c delta = record c { removed = c.removed ++ delta ∷ [] }
  append_kind changed c delta =
      let up = float.lt (float.of_nat 0) delta.waste_percent_delta in
      let down = float.lt delta.waste_percent_delta (float.of_nat 0) in
      record c {
        regressions = snoc_if up c.regressions delta;
        progressions = snoc_if (not up && down) c.progressions delta;
        runtime_regressions =
            snoc_if (is_regression delta.runtime_delta) c.runtime_regressions delta;
        runtime_improvements =
            snoc_if (is_improvement delta.runtime_delta) c.runtime_improvements delta;
      }

  -- `appendDependencyDelta`.
  unfoldable pub append_delta : DeltaLists → DependencyDelta → DeltaLists
  append_delta c delta =
      append_kind delta.kind (record c { dependencies = c.dependencies ++ delta ∷ [] }) delta

  module _ (url : Url) (format_float : float.Carrier → Str) where
    -- `dependencyDelta` of a pair; a pair with no side has no change.
    unfoldable pub delta_of_pair :
        Option (Slot float url format_float)
        → Option (Slot float url format_float)
        → Option DependencyDelta
    delta_of_pair (some c) none = some (added_delta c.dep)
    delta_of_pair none (some b) = some (removed_delta b.dep)
    delta_of_pair (some c) (some b) = delta_of_both c.dep b.dep
    delta_of_pair none none = none

    abbrev ordinal_of : Option (Slot float url format_float) → Option ℕ
    ordinal_of none = none
    ordinal_of (some slot) = some slot.ordinal

    abbrev key_of :
        Option (Slot float url format_float) → Option (Slot float url format_float) → Str → Str
    key_of (some c) baseline key = versionless_key float url c.dep
    key_of none (some b) key = versionless_key float url b.dep
    key_of none none key = trim_space key

    -- `dependencyInstancePairKey`.
    abbrev pub pair_key : Pair float url format_float → Str
    pair_key pair = key_of pair.current pair.baseline pair.key

    abbrev pub append_change :
        DeltaLists → Pair float url format_float → Option DependencyDelta → DeltaLists
    append_change c pair none = record c { unchanged_rows = c.unchanged_rows + 1 }
    append_change c pair (some delta) = append_delta c (record delta {
      dependency_key = pair_key pair;
      current_ordinal = ordinal_of pair.current;
      baseline_ordinal = ordinal_of pair.baseline;
    })

    -- `appendDependencyInstanceDeltas`.
    unfoldable pub append_instance_deltas :
        DeltaLists → List (Pair float url format_float) → DeltaLists
    append_instance_deltas c [] = c
    append_instance_deltas c (pair ∷ pairs) =
        append_instance_deltas (append_change c pair (delta_of_pair pair.current pair.baseline))
          pairs

    abbrev denied_baseline : Option (Slot float url format_float) → Bool
    denied_baseline none = false
    denied_baseline (some b) = is_denied b.dep.license

    -- `pairIntroducesDeniedLicense`.
    unfoldable pub introduces_denied :
        Option (Slot float url format_float) → Option (Slot float url format_float) → Bool
    introduces_denied none baseline = false
    introduces_denied (some c) baseline = is_denied c.dep.license && not (denied_baseline baseline)

    abbrev denied_delta : Option (Slot float url format_float) → List DeniedLicenseDelta
    denied_delta none = []
    denied_delta (some c) =
        record { language = c.dep.language; name = c.dep.name; spdx = spdx_of c.dep.license } ∷ []

    -- `appendNewlyDeniedLicenseDeltas`.
    unfoldable pub denied_deltas : List (Pair float url format_float) → List DeniedLicenseDelta
    denied_deltas [] = []
    denied_deltas (pair ∷ pairs) =
        (if introduces_denied pair.current pair.baseline then denied_delta pair.current else [])
        ++ denied_deltas pairs

    abbrev denied_less : DeniedLicenseDelta → DeniedLicenseDelta → Bool
    denied_less a b =
        if str_eq a.language b.language
        then is_lt (compare_str a.name b.name)
        else is_lt (compare_str a.language b.language)

    -- `newlyDeniedLicensesFromPairs`.
    unfoldable pub newly_denied_licenses :
        List (Pair float url format_float) → List DeniedLicenseDelta
    newly_denied_licenses pairs = sort_by denied_less (denied_deltas pairs)
