-- ===== src/Baseline/Unchanged.antt =====
-- internal/report/baseline_diff.go: a dependency against itself.
use lopper.Prelude.{ℕ, ◌≡◌, refl, true, false, List, [], ◌∷◌, Option, none, some, arith, All}
use lopper.Prelude.Int.{pos, difference, eqb_ℤ}
use lopper.Prelude.Sort.{sort_by}
use lopper.Prelude.Counts.{keep_if}
use lopper.Text.{Str, str_eq_refl}
use lopper.Dict.{Dict, lookup}
use lopper.Float.{Float64}
use lopper.Model.Parts.{
  RuntimeUsage, RuntimeModuleUsage, Correlation, static_only, runtime_only, overlap, unset, other,
}
use lopper.Model.Dependency.{DependencyReport, VulnerabilityFinding}
use lopper.Vulnerability.Scores.{finding_key, runtime_usage_correlation}
use lopper.Baseline.Runtime.{
  no_changes, add_module_change, compare_modules_at, compare_module_usage, same_correlation,
  append_load_count_changes, append_correlation_change, append_only_change,
  append_collection_changes, presence_delta, runtime_delta,
}
use lopper.Baseline.Deltas.{
  is_zero, is_new_finding, new_reachable_findings, changed_delta, is_unchanged, delta_of_both,
  reachable_count,
}

add_module_change_self :
    (name : Str) (count : Option ℕ) → add_module_change name count count no_changes ≡ no_changes
unfolding add_module_change
add_module_change_self name none = refl
add_module_change_self name (some n) = ground arith

compare_modules_at_self :
    (counts : Dict ℕ) (names : List Str) → compare_modules_at counts counts names ≡ no_changes
unfolding compare_modules_at
compare_modules_at_self counts [] = refl
compare_modules_at_self counts (name ∷ names) =
    rw (compare_modules_at_self counts names) (add_module_change_self name (lookup name counts))

compare_module_usage_self :
    (items : List RuntimeModuleUsage) → compare_module_usage items items ≡ no_changes
unfolding compare_module_usage
compare_module_usage_self items = compare_modules_at_self _ _

same_correlation_refl : (c : Correlation) → same_correlation c c ≡ true
unfolding same_correlation
same_correlation_refl static_only = refl
same_correlation_refl runtime_only = refl
same_correlation_refl overlap = refl
same_correlation_refl unset = refl
same_correlation_refl (other text) = str_eq_refl text

runtime_delta_self : (usage : Option RuntimeUsage) → (runtime_delta usage usage).1 ≡ false
unfolding runtime_delta append_load_count_changes append_correlation_change append_only_change
    append_collection_changes presence_delta
runtime_delta_self none = refl
runtime_delta_self (some usage) = ground (
  arith,
  same_correlation_refl (runtime_usage_correlation (some usage)),
  compare_module_usage_self usage.modules,
  compare_module_usage_self usage.parent_modules,
  compare_module_usage_self usage.entrypoints,
)

module _ (float : Float64) where
  new_findings-none :
      (findings some_of : List (VulnerabilityFinding float))
      → All (λ f. is_new_finding float findings f ≡ false) some_of
      → keep_if (is_new_finding float findings) some_of ≡ []
  unfolding keep_if
  new_findings-none findings [] h = refl
  new_findings-none findings (f ∷ fs) h = ground (arith, new_findings-none findings fs h.1)

  old_all :
      (findings some_of : List (VulnerabilityFinding float))
      → ((f : VulnerabilityFinding float)
          → is_new_finding float some_of f ≡ false
          → is_new_finding float findings f ≡ false)
      → All (λ f. is_new_finding float findings f ≡ false) some_of
  unfolding is_new_finding
  old_all findings [] h = tt
  old_all findings (f ∷ fs) h = (
    h f (ground (arith, str_eq_refl (finding_key float f))),
    old_all findings fs (λ g k. h g (ground arith)),
  )

  new_reachable_findings_self :
      (findings : List (VulnerabilityFinding float))
      → new_reachable_findings float findings findings ≡ []
  unfolding new_reachable_findings sort_by
  new_reachable_findings_self findings =
      rw (new_findings-none findings findings (old_all findings findings (λ f h. h)))

  difference_self : (n : ℕ) → eqb_ℤ (difference n n) (pos 0) ≡ true
  unfolding difference
  difference_self n = ground arith

  -- A dependency is unchanged against itself, where its percentage less itself is zero, as it is of a
  -- finite number.
  pub delta_of_both_self :
      (dep : DependencyReport float)
      → is_zero float (float.sub dep.used_percent dep.used_percent) ≡ true
      → delta_of_both float dep dep ≡ none
  unfolding delta_of_both is_unchanged changed_delta
  delta_of_both_self dep h = ground (
    arith,
    difference_self dep.used_exports_count,
    difference_self dep.total_exports_count,
    difference_self dep.estimated_unused_bytes,
    difference_self (reachable_count float dep.vulnerabilities),
    runtime_delta_self dep.runtime_usage,
    new_reachable_findings_self dep.vulnerabilities,
  )
