-- ===== src/Summary/Languages.antt =====
-- internal/report/summary.go: `ComputeLanguageBreakdown`.
use lopper.Prelude.{ℕ, ◌+◌, List, [], ◌∷◌, Option, none, some, ltb, if◌then◌else◌, map}
use lopper.Prelude.Sort.{sort_by, is_lt}
use lopper.Text.{Str, str_eq, compare_str}
use lopper.Dict.{Dict, lookup, insert, values}
use lopper.Float.{Float64, percent_of}
use lopper.Model.Dependency.{DependencyReport}

module _ (float : Float64) where
  -- `LanguageSummary`.
  pub record LanguageSummary : Type 0 where
    pub language : Str
    pub dependency_count : ℕ
    pub used_exports_count : ℕ
    pub total_exports_count : ℕ
    pub used_percent : float.Carrier

  abbrev pub or_new : Str → Option LanguageSummary → LanguageSummary
  or_new language none = record {
    language = language;
    dependency_count = 0;
    used_exports_count = 0;
    total_exports_count = 0;
    used_percent = float.of_nat 0;
  }
  or_new language (some current) = current

  unfoldable pub count_dependency : LanguageSummary → DependencyReport float → LanguageSummary
  count_dependency current dep = record current {
    dependency_count = current.dependency_count + 1;
    used_exports_count = current.used_exports_count + dep.used_exports_count;
    total_exports_count = current.total_exports_count + dep.total_exports_count;
  }

  -- The first loop.
  unfoldable pub group_languages :
      Dict LanguageSummary → List (DependencyReport float) → Dict LanguageSummary
  group_languages grouped [] = grouped
  group_languages grouped (dep ∷ deps) =
      group_languages
        (if str_eq dep.language []
          then grouped
          else insert dep.language
              (count_dependency (or_new dep.language (lookup dep.language grouped)) dep) grouped)
        deps

  abbrev pub with_percent : LanguageSummary → LanguageSummary
  with_percent item = record item {
    used_percent =
        if ltb 0 item.total_exports_count
        then percent_of float item.used_exports_count item.total_exports_count
        else item.used_percent;
  }

  -- `ComputeLanguageBreakdown`.
  unfoldable pub compute_language_breakdown : List (DependencyReport float) → List LanguageSummary
  compute_language_breakdown deps =
      sort_by (λ a b. is_lt (compare_str a.language b.language))
        (map with_percent (values (group_languages [] deps)))
