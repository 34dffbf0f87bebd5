-- ===== src/Merge/Codemods.antt =====
-- internal/analysis/merge.go: which suggestions and skips the merged codemod report has.
use lopper.Prelude.{
  ℕ, ◌≡◌, refl, Bool, ◌&&◌, ◌||◌, List, [], Option, none, some, arith, All, any, ◌==◌, Bool-cases,
  inl, inr,
}
use lopper.Prelude.Sort.{is_lt}
use lopper.Text.{Str, str_eq, str_eq_iff, str_eq_refl, compare_str}
use lopper.Model.Parts.{CodemodReport, CodemodSuggestion, CodemodSkip}
use lopper.Merge.Advice.{
  suggestion_key, suggestion_sort_key, skip_key, skip_sort_key, merge_codemod_report,
}
use lopper.Merge.Distinct.{any_same-merge_unique_sorted}
use lopper.Merge.Digits.{IsPlain, numbered_key, numbered_key-injective}

-- Two suggestions, or two skips, are about the same.
abbrev pub same_suggestion : CodemodSuggestion → CodemodSuggestion → Bool
same_suggestion a b =
    str_eq a.file b.file
    && a.line == b.line
    && str_eq a.import_name b.import_name
    && str_eq a.to_module b.to_module

abbrev pub same_skip : CodemodSkip → CodemodSkip → Bool
same_skip a b =
    str_eq a.file b.file
    && a.line == b.line
    && str_eq a.import_name b.import_name
    && str_eq a.reason_code b.reason_code

-- File and import are plain texts.
abbrev pub IsPlainSuggestion : CodemodSuggestion → Type 0
IsPlainSuggestion item = IsPlain item.file × IsPlain item.import_name

abbrev pub IsPlainSkip : CodemodSkip → Type 0
IsPlainSkip item = IsPlain item.file × IsPlain item.import_name

same_numbered_key :
    (file file' : Str) (line line' : ℕ) (name name' last last' : Str)
    → IsPlain file
    → IsPlain file'
    → IsPlain name
    → IsPlain name'
    → (str_eq file file' && line == line' && str_eq name name' && str_eq last last')
      ≡ str_eq (numbered_key file line name last) (numbered_key file' line' name' last')
same_numbered_key file file' line line' name name' last last' p p' q q' =
    elim (Bool-cases
      (str_eq (numbered_key file line name last) (numbered_key file' line' name' last'))) [
        | inl same ↦
            let (files, lines, names, lasts) =
              numbered_key-injective file file' line line' name name' last last' p p' q q'
                ((str_eq_iff _ _).0 same) in
            rw (files, lines, names, lasts)
              (ground (
                arith,
                str_eq_refl file',
                str_eq_refl name',
                str_eq_refl last',
                str_eq_refl (numbered_key file' line' name' last'),
              ))
        | inr other ↦ ground (
          arith,
          str_eq_iff file file',
          str_eq_iff name name',
          str_eq_iff last last',
          str_eq_refl (numbered_key file line name last),
        )
      ]

agree-suggestion :
    (a b : CodemodSuggestion)
    → IsPlainSuggestion a
    → IsPlainSuggestion b
    → same_suggestion a b ≡ str_eq (suggestion_key a) (suggestion_key b)
unfolding suggestion_key
agree-suggestion a b p q = same_numbered_key _ _ _ _ _ _ _ _ p.0 q.0 p.1 q.1

agree-skip :
    (a b : CodemodSkip)
    → IsPlainSkip a
    → IsPlainSkip b
    → same_skip a b ≡ str_eq (skip_key a) (skip_key b)
unfolding skip_key
agree-skip a b p q = same_numbered_key _ _ _ _ _ _ _ _ p.0 q.0 p.1 q.1

abbrev pub suggestions_of : Option CodemodReport → List CodemodSuggestion
suggestions_of none = []
suggestions_of (some codemod) = codemod.suggestions

abbrev pub skips_of : Option CodemodReport → List CodemodSkip
skips_of none = []
skips_of (some codemod) = codemod.skips

abbrev pub IsPlainReport : Option CodemodReport → Type 0
IsPlainReport codemod =
    All IsPlainSuggestion (suggestions_of codemod) × All IsPlainSkip (skips_of codemod)

-- Where no file and no import has a NUL in its name, a merged codemod report has a suggestion of this
-- file, line, import and target exactly if one of the two reports has, and a skip of this file, line,
-- import and reason exactly if one of the two has.
pub merge_codemod_report_complete :
    (left right : Option CodemodReport)
    → IsPlainReport left
    → IsPlainReport right
    → (suggestion : CodemodSuggestion) → IsPlainSuggestion suggestion
    → (skip : CodemodSkip) → IsPlainSkip skip
    → let merged = merge_codemod_report left right in
      (any (λ s. same_suggestion s suggestion) (suggestions_of merged) ≡ (
        any (λ s. same_suggestion s suggestion) (suggestions_of left)
        || any (λ s. same_suggestion s suggestion) (suggestions_of right)))
      × (any (λ s. same_skip s skip) (skips_of merged) ≡ (
          any (λ s. same_skip s skip) (skips_of left)
          || any (λ s. same_skip s skip) (skips_of right)))
unfolding merge_codemod_report
merge_codemod_report_complete none right p q suggestion r skip t = (refl, refl)
merge_codemod_report_complete (some left) none p q suggestion r skip t =
    (ground arith, ground arith)
merge_codemod_report_complete (some left) (some right) p q suggestion r skip t = (
  any_same-merge_unique_sorted suggestion_key IsPlainSuggestion same_suggestion agree-suggestion
      suggestion r (λ a b. is_lt (compare_str (suggestion_sort_key a) (suggestion_sort_key b)))
      left.suggestions right.suggestions p.0 q.0,
  any_same-merge_unique_sorted skip_key IsPlainSkip same_skip agree-skip skip t
      (λ a b. is_lt (compare_str (skip_sort_key a) (skip_sort_key b))) left.skips right.skips p.1
      q.1,
)
