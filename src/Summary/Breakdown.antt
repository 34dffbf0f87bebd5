-- ===== src/Summary/Breakdown.antt =====
-- `ComputeLanguageBreakdown` of internal/report/summary.go: its counts against the dependencies.
use lopper.Prelude.{
  ℕ, ◌+◌, ◌≡◌, refl, ◌∙◌, List, [], ◌∷◌, map, none, arith, Option-cases, Bool-cases, inl, inr,
  if◌then◌else◌,
}
use lopper.Text.{Str, str_eq}
use lopper.Dict.{Dict, lookup, insert, values}
use lopper.Float.{Float64}
use lopper.Model.Dependency.{DependencyReport}
use lopper.Prelude.Counts.{total, total-sort_by}
use lopper.Merge.Counts.{insert-new, insert-over}
use lopper.Summary.Languages.{
  LanguageSummary, or_new, count_dependency, group_languages, with_percent,
  compute_language_breakdown,
}

module _ (float : Float64) where
  -- The sum of a weight over the dependencies with a language.
  unfoldable pub named_weight : (DependencyReport float → ℕ) → List (DependencyReport float) → ℕ
  named_weight weight [] = 0
  named_weight weight (dep ∷ deps) =
      (if str_eq dep.language [] then 0 else weight dep) + named_weight weight deps

  -- A field of the breakdown, with what a dependency adds to it.
  module _ (field : LanguageSummary float → ℕ) (weight : DependencyReport float → ℕ)
      (counts : (s : LanguageSummary float) (dep : DependencyReport float)
        → field (count_dependency float s dep) ≡ field s + weight dep)
      (starts : (language : Str) → field (or_new float language none) ≡ 0)
      (stays : (s : LanguageSummary float) → field (with_percent float s) ≡ field s) where
    total-count :
        (grouped : Dict (LanguageSummary float)) (dep : DependencyReport float)
        → total field (
            values (
              insert dep.language
                (count_dependency float
                  (or_new float dep.language (lookup dep.language grouped))
                  dep)
                grouped))
          ≡ total field (values grouped) + weight dep
    total-count grouped dep = elim (Option-cases (lookup dep.language grouped)) [
      | inl e ↦ rw e (
          omega (
            arith,
            insert-new field dep.language
                (count_dependency float (or_new float dep.language none) dep) grouped e,
            counts (or_new float dep.language none) dep,
            starts dep.language,
          ))
      | inr (s, e) ↦ rw e (
          omega (
            arith,
            insert-over field dep.language (count_dependency float s dep) s grouped e,
            counts s dep,
          ))
    ]

    total-group_languages :
        (deps : List (DependencyReport float)) (grouped : Dict (LanguageSummary float))
        → total field (values (group_languages float grouped deps))
          ≡ total field (values grouped) + named_weight weight deps
    unfolding group_languages named_weight
    total-group_languages [] grouped = omega arith
    total-group_languages (dep ∷ deps) grouped = elim (Bool-cases (str_eq dep.language [])) [
      | inl e ↦ rw e (total-group_languages deps grouped ∙ omega arith)
      | inr e ↦ rw e (total-group_languages deps _ ∙ omega (arith, total-count grouped dep))
    ]

    total-with_percent :
        (items : List (LanguageSummary float))
        → total field (map (with_percent float) items) ≡ total field items
    unfolding total
    total-with_percent [] = refl
    total-with_percent (item ∷ items) = omega (arith, stays item, total-with_percent items)

    total-breakdown :
        (deps : List (DependencyReport float))
        → total field (compute_language_breakdown float deps) ≡ named_weight weight deps
    unfolding compute_language_breakdown total values
    total-breakdown deps =
        total-sort_by field _ _
        ∙ total-with_percent (values (group_languages float [] deps))
        ∙ total-group_languages deps []
        ∙ omega arith

  -- Over the languages of the breakdown, the dependencies and their used and total exports add up to
  -- those of all dependencies that have a language.
  pub compute_language_breakdown-totals :
      (deps : List (DependencyReport float))
      → let breakdown = compute_language_breakdown float deps in
        (total (λ s. s.dependency_count) breakdown ≡ named_weight (λ dep. 1) deps)
        × (total (λ s. s.used_exports_count) breakdown
            ≡ named_weight (λ dep. dep.used_exports_count) deps)
        × (total (λ s. s.total_exports_count) breakdown
            ≡ named_weight (λ dep. dep.total_exports_count) deps)
  unfolding count_dependency
  compute_language_breakdown-totals deps = (
    total-breakdown (λ s. s.dependency_count) (λ dep. 1) (λ s dep. refl) (λ l. refl) (λ s. refl)
        deps,
    total-breakdown (λ s. s.used_exports_count) (λ dep. dep.used_exports_count) (λ s dep. refl)
        (λ l. refl) (λ s. refl) deps,
    total-breakdown (λ s. s.total_exports_count) (λ dep. dep.total_exports_count) (λ s dep. refl)
        (λ l. refl) (λ s. refl) deps,
  )
