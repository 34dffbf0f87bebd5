-- ===== src/Merge/Reports.antt =====
-- internal/analysis/merge_report_families.go: the merge of the language adapters' reports. The
-- family mergers keep separate states, so each is a loop of its own here.
use lopper.Prelude.{ℕ, List, [], ◌∷◌, ◌++◌, Option, none, some, ltb, if◌then◌else◌}
use lopper.Text.{Str}
use lopper.Text.Ascending.{sort_strings}
use lopper.Dict.{Dict, lookup, insert, keys}
use lopper.Float.{Float64}
use lopper.Model.Parts.{UsageUncertainty}
use lopper.Model.Dependency.{DependencyReport}
use lopper.Merge.Advice.{merge_usage_uncertainty}
use lopper.Merge.Families.{merge_dependency}

module _ (float : Float64) where
  -- The fields of `Report` that `mergeReports` reads or sets. An instant is counted from the zero
  -- value of `time.Time`.
  pub record Report : Type 0 where
    pub generated_at : ℕ
    pub repo_path : Str
    pub dependencies : List (DependencyReport float)
    pub usage_uncertainty : Option UsageUncertainty
    pub warnings : List Str

  -- `dependencyMergeKey`.
  unfoldable pub dependency_merge_key : DependencyReport float → Str
  dependency_merge_key dep = dep.language ++ 0 ∷ dep.name

  -- `merge` and `finalize` of `warningsReportFamilyMerger`.
  unfoldable pub merge_warnings : List Str → List Report → List Str
  merge_warnings warnings [] = warnings
  merge_warnings warnings (current ∷ reports) =
      merge_warnings (warnings ++ current.warnings) reports

  -- Those of `usageUncertaintyReportFamilyMerger`.
  unfoldable pub merge_uncertainty : Option UsageUncertainty → List Report → Option UsageUncertainty
  merge_uncertainty merged [] = merged
  merge_uncertainty merged (current ∷ reports) =
      merge_uncertainty (merge_usage_uncertainty merged current.usage_uncertainty) reports

  -- Those of `generatedAtReportFamilyMerger`.
  unfoldable pub merge_generated_at : ℕ → List Report → ℕ
  merge_generated_at latest [] = latest
  merge_generated_at latest (current ∷ reports) =
      merge_generated_at (if ltb latest current.generated_at then current.generated_at else latest)
        reports

  abbrev pub join_dependency :
      Option (DependencyReport float) → DependencyReport float → DependencyReport float
  join_dependency none dep = dep
  join_dependency (some existing) dep = merge_dependency float existing dep

  -- The loop of `merge` of `dependencyReportFamilyMerger`.
  unfoldable pub merge_by_key :
      Dict (DependencyReport float) → List (DependencyReport float) → Dict (DependencyReport float)
  merge_by_key merged [] = merged
  merge_by_key merged (dep ∷ deps) =
      let key = dependency_merge_key dep in
      merge_by_key (insert key (join_dependency (lookup key merged) dep) merged) deps

  unfoldable pub merge_all_by_key :
      Dict (DependencyReport float) → List Report → Dict (DependencyReport float)
  merge_all_by_key merged [] = merged
  merge_all_by_key merged (current ∷ reports) =
      merge_all_by_key (merge_by_key merged current.dependencies) reports

  -- The loop of its `finalize`: each key is one of the map.
  unfoldable pub at_keys : Dict (DependencyReport float) → List Str → List (DependencyReport float)
  at_keys merged [] = []
  at_keys merged (key ∷ rest) = elim (lookup key merged) [
    | some dep ↦ dep ∷ at_keys merged rest
    | none ↦ at_keys merged rest
  ]

  -- `mergeReports`.
  unfoldable pub merge_reports : Str → List Report → Report
  merge_reports repo_path reports =
      let merged = merge_all_by_key [] reports in
      record {
        generated_at = merge_generated_at 0 reports;
        repo_path = repo_path;
        dependencies = at_keys merged (sort_strings (keys merged));
        usage_uncertainty = merge_uncertainty none reports;
        warnings = merge_warnings [] reports;
      }
