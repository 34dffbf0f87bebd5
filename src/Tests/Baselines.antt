-- ===== src/Tests/Baselines.antt =====
-- The theorems on internal/report/baseline_diff.go at small reports.
use lopper.Prelude.{ℕ, ◌+◌, ◌≡◌, refl, List, [], ◌∷◌, none, some, length, if◌then◌else◌}
use lopper.Prelude.Counts.{total}
use lopper.Text.{Str, codes, str_eq}
use lopper.Model.Parts.{RuntimeModuleUsage}
use lopper.Model.Dependency.{DependencyReport}
use lopper.Merge.Advice.{decimal}
use lopper.Purl.{Url}
use lopper.Baseline.Pairing.{Pair, pair_instances_unbridged}
use lopper.Baseline.Versions.{version_distance}
use lopper.Baseline.Runtime.{compare_module_usage}
use lopper.Baseline.Deltas.{no_deltas, append_instance_deltas, delta_of_both}
use lopper.Baseline.Coverage.{total_over, pair_instances_unbridged-all}
use lopper.Baseline.Balance.{append_instance_deltas-balance}
use lopper.Baseline.Distance.{version_distance_lem}
use lopper.Baseline.Unchanged.{delta_of_both_self}
use lopper.Baseline.Modules.{listed, compare_module_usage-balance}
use lopper.Tests.Samples.{exact, left_report, right_report}

-- A net/url whose escapes change nothing.
abbrev plain_url : Url
plain_url = record { path_unescape = λ s. some s; path_escape = λ s. s }

abbrev identified : Str → Str → DependencyReport exact
identified name purl = record left_report {
  name = name;
  identity = some (record {
    ecosystem = codes "npm";
    name = name;
    namespace = [];
    version = [];
    version_status = [];
    purl = purl;
    purl_status = [];
    source = [];
    confidence = [];
    evidence = [];
    conflicts = [];
  });
}

abbrev now_deps : List (DependencyReport exact)
now_deps = left_report ∷ identified (codes "alias") (codes "pkg:npm/foo@2.0.0") ∷ []

abbrev then_deps : List (DependencyReport exact)
then_deps = identified (codes "alias") (codes "pkg:npm/foo@1.0.0") ∷ right_report ∷ left_report ∷ []

abbrev unbridged_pairs : List (Pair exact plain_url decimal)
unbridged_pairs = pair_instances_unbridged exact plain_url decimal now_deps then_deps

pair_instances_unbridged-all_example :
    (total_over exact plain_url decimal
        (λ dep. dep.used_exports_count)
        (λ pair. pair.current)
        unbridged_pairs
      ≡ total (λ dep. dep.used_exports_count) now_deps)
    × (total_over exact plain_url decimal
          (λ dep. dep.used_exports_count)
          (λ pair. pair.baseline)
          unbridged_pairs
        ≡ total (λ dep. dep.used_exports_count) then_deps)
pair_instances_unbridged-all_example =
    pair_instances_unbridged-all exact plain_url decimal (λ dep. dep.used_exports_count) now_deps
      then_deps

append_instance_deltas-balance_example :
    let lists = append_instance_deltas exact plain_url decimal (no_deltas exact) unbridged_pairs in
    (length lists.dependencies + lists.unchanged_rows ≡ length unbridged_pairs)
    × (length now_deps + length lists.removed ≡ length then_deps + length lists.added)
append_instance_deltas-balance_example =
    append_instance_deltas-balance exact plain_url decimal now_deps then_deps

version_distance_lem_example :
    (version_distance (codes "1.2.3") (codes "2.0")
      ≡ version_distance (codes "2.0") (codes "1.2.3"))
    × (version_distance (codes "1.2.3") (codes "1.2.3")
        ≡ (if str_eq (codes "1.2.3") [] then none else some 0))
version_distance_lem_example = version_distance_lem (codes "1.2.3") (codes "2.0")

delta_of_both_self_example : delta_of_both exact left_report left_report ≡ none
delta_of_both_self_example = delta_of_both_self exact left_report refl

abbrev loads : ℕ → RuntimeModuleUsage
loads n = record { module_name = codes "lodash/map"; count = n }

compare_module_usage-balance_example :
    let changes = compare_module_usage (loads 2 ∷ loads 3 ∷ []) (loads 4 ∷ []) in
    listed (λ d. d.current_count) changes + total (λ x. x.count) (loads 4 ∷ [])
    ≡ listed (λ d. d.baseline_count) changes + total (λ x. x.count) (loads 2 ∷ loads 3 ∷ [])
compare_module_usage-balance_example =
    compare_module_usage-balance (loads 2 ∷ loads 3 ∷ []) (loads 4 ∷ [])
