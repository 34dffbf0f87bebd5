-- ===== src/Tests/Merging.antt =====
-- The theorems on internal/analysis/merge.go at concrete lists.
use mathlib.Core.List.{Permᴰ}
use lopper.Prelude.{ℕ, ◌+◌, ◌≡◌, refl, false, ◌||◌, List, [], ◌∷◌, Option, none, some, All, any}
use lopper.Prelude.Sort.{sort_by}
use lopper.Text.{codes, str_eq}
use lopper.Dict.{values, insert}
use lopper.Model.Parts.{RuntimeModuleUsage, CodemodReport, CodemodSuggestion, CodemodSkip}
use lopper.Merge.Advice.{merge_codemod_report}
use lopper.Merge.Codemods.{
  same_suggestion, same_skip, suggestions_of, skips_of, merge_codemod_report_complete,
}
use lopper.Merge.Imports.{is_used_in}
use lopper.Merge.Runtime.{merge_runtime_module_usage}
use lopper.Merge.Families.{merge_dependency}
use lopper.Merge.Safety.{merge_dependency-unused}
use lopper.Prelude.Counts.{total}
use lopper.Merge.Counts.{merge_runtime_module_usage-total}
use lopper.Tests.Samples.{named, exact, left_report, right_report}
use lopper.Merge.Unique.{
  merge_unique, symbol_ref_key, symbol_ref_less, merge_symbol_refs, merge_symbol_refs-any_order,
}

visited :
    Permᴰ
      (values (merge_unique symbol_ref_key (named (codes "map") ∷ []) (named (codes "get") ∷ [])))
      (named (codes "get") ∷ named (codes "map") ∷ [])
unfolding merge_unique symbol_ref_key values insert str_eq
visited = Permᴰ.swap refl refl

merge_symbol_refs-any_order_example :
    sort_by symbol_ref_less (named (codes "get") ∷ named (codes "map") ∷ [])
    ≡ merge_symbol_refs (named (codes "map") ∷ []) (named (codes "get") ∷ [])
merge_symbol_refs-any_order_example =
    merge_symbol_refs-any_order (named (codes "map") ∷ []) (named (codes "get") ∷ [])
      (named (codes "get") ∷ named (codes "map") ∷ []) visited

merge_dependency-unused_example :
    All
      (λ item.
        is_used_in (merge_dependency exact left_report right_report).used_imports item ≡ false)
      (merge_dependency exact left_report right_report).unused_imports
merge_dependency-unused_example = merge_dependency-unused exact left_report right_report

abbrev modules : List RuntimeModuleUsage
modules =
    record { module_name = codes "lodash"; count = 2 }
    ∷ record { module_name = codes "lodash"; count = 3 }
    ∷ record { module_name = codes "lodash/get"; count = 1 }
    ∷ []

merge_runtime_module_usage-total_example :
    total (λ item. item.count) (merge_runtime_module_usage modules modules)
    ≡ total (λ (item : RuntimeModuleUsage). item.count) modules
      + total (λ (item : RuntimeModuleUsage). item.count) modules
merge_runtime_module_usage-total_example = merge_runtime_module_usage-total modules modules

abbrev skipped : ℕ → CodemodSkip
skipped line = record {
  language = codes "js";
  dependency = codes "lodash";
  file = codes "src/a.ts";
  target_file = [];
  line = line;
  import_name = codes "map";
  module_name = codes "lodash";
  reason_code = codes "side-effect";
  message = [];
}

abbrev suggested : CodemodSuggestion
suggested = record {
  language = codes "js";
  dependency = codes "lodash";
  file = codes "src/a.ts";
  target_file = [];
  line = 3;
  import_name = codes "get";
  from_module = codes "lodash";
  to_module = codes "lodash/get";
  original = [];
  replacement = [];
  patch = [];
  safety_reason_codes = [];
  delete_line = false;
}

abbrev codemod_of : List CodemodSuggestion → List CodemodSkip → Option CodemodReport
codemod_of suggestions skips =
    some (record { mode = codes "suggest"; suggestions = suggestions; skips = skips; apply = none })

merge_codemod_report_complete_example :
    let left = codemod_of (suggested ∷ []) (skipped 3 ∷ []) in
    let right = codemod_of [] (skipped 12 ∷ []) in
    let merged = merge_codemod_report left right in
    (any (λ s. same_suggestion s suggested) (suggestions_of merged) ≡ (
      any (λ s. same_suggestion s suggested) (suggestions_of left)
      || any (λ s. same_suggestion s suggested) (suggestions_of right)))
    × (any (λ s. same_skip s (skipped 12)) (skips_of merged) ≡ (
        any (λ s. same_skip s (skipped 12)) (skips_of left)
        || any (λ s. same_skip s (skipped 12)) (skips_of right)))
merge_codemod_report_complete_example =
    merge_codemod_report_complete (codemod_of (suggested ∷ []) (skipped 3 ∷ []))
      (codemod_of [] (skipped 12 ∷ [])) (((refl, refl), tt), ((refl, refl), tt))
      (tt, ((refl, refl), tt)) suggested (refl, refl) (skipped 12) (refl, refl)
