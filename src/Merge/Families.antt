-- ===== src/Merge/Families.antt =====
-- internal/analysis/merge.go: `mergeDependency`, the merge of two reports on one dependency.
use lopper.Prelude.{◌+◌, true, false, ◌||◌, List, [], ◌∷◌, Option, none, some, ltb, if◌then◌else◌}
use lopper.Model.Parts.{ImportUse}
use lopper.Merge.Unique.{merge_symbol_refs}
use lopper.Merge.Runtime.{merge_top_symbols, merge_runtime_usage}
use lopper.Merge.Imports.{merge_import_uses, filter_used_overlaps}
use lopper.Merge.Advice.{merge_risk_cues, merge_recommendations, merge_codemod_report}
use lopper.Float.{Float64, percent_of}
use lopper.Model.Dependency.{DependencyReport}

module _ (float : Float64) where
  -- `mergeDependencyExportFamily`.
  unfoldable pub merge_export_family :
      DependencyReport float
      → DependencyReport float
      → DependencyReport float
      → DependencyReport float
  merge_export_family merged left right =
      let used = left.used_exports_count + right.used_exports_count in
      let total = left.total_exports_count + right.total_exports_count in
      record merged {
        used_exports_count = used;
        total_exports_count = total;
        used_percent = if ltb 0 total then percent_of float used total else merged.used_percent;
        estimated_unused_bytes = left.estimated_unused_bytes + right.estimated_unused_bytes;
      }

  -- `mergeDependencyImportFamily`.
  unfoldable pub merge_import_family :
      DependencyReport float
      → DependencyReport float
      → DependencyReport float
      → DependencyReport float
  merge_import_family merged left right =
      let used = merge_import_uses left.used_imports right.used_imports in
      record merged {
        used_imports = used;
        unused_imports =
            filter_used_overlaps (merge_import_uses left.unused_imports right.unused_imports) used;
      }

  -- `mergeDependencySymbolFamily`.
  unfoldable pub merge_symbol_family :
      DependencyReport float
      → DependencyReport float
      → DependencyReport float
      → DependencyReport float
  merge_symbol_family merged left right = record merged {
    unused_exports = merge_symbol_refs left.unused_exports right.unused_exports;
    top_used_symbols = merge_top_symbols left.top_used_symbols right.top_used_symbols;
  }

  -- `mergeDependencyRiskFamily`.
  unfoldable pub merge_risk_family :
      DependencyReport float
      → DependencyReport float
      → DependencyReport float
      → DependencyReport float
  merge_risk_family merged left right = record merged {
    risk_cues = merge_risk_cues left.risk_cues right.risk_cues;
    recommendations = merge_recommendations left.recommendations right.recommendations;
  }

  -- `mergeDependencyCodemodFamily`.
  unfoldable pub merge_codemod_family :
      DependencyReport float
      → DependencyReport float
      → DependencyReport float
      → DependencyReport float
  merge_codemod_family merged left right = record merged {
    codemod = merge_codemod_report left.codemod right.codemod;
  }

  -- `mergeDependencyRuntimeFamily`.
  unfoldable pub merge_runtime_family :
      DependencyReport float
      → DependencyReport float
      → DependencyReport float
      → DependencyReport float
  merge_runtime_family merged left right = record merged {
    runtime_usage = merge_runtime_usage left.runtime_usage right.runtime_usage;
  }

  abbrev or_right : {A : Type 0} → Option A → Option A → Option A
  or_right none right = right
  or_right (some left) right = some left

  -- `mergeDependencyMetadataFamily`.
  unfoldable pub merge_metadata_family :
      DependencyReport float
      → DependencyReport float
      → DependencyReport float
      → DependencyReport float
  merge_metadata_family merged left right = record merged {
    reachability_confidence = or_right merged.reachability_confidence right.reachability_confidence;
    removal_candidate = or_right merged.removal_candidate right.removal_candidate;
    license = or_right merged.license right.license;
    provenance = or_right merged.provenance right.provenance;
  }

  -- `mergeIncompletePathEvidence`.
  unfoldable pub merge_incomplete_path_evidence :
      DependencyReport float → DependencyReport float → List ImportUse
  merge_incomplete_path_evidence left right =
      merge_import_uses
        (merge_import_uses
          (merge_import_uses left.suppressed_unused_imports right.suppressed_unused_imports)
          left.unused_imports)
        right.unused_imports

  -- `mergeDependencyUsageCompletenessFamily`.
  unfoldable pub merge_completeness_family :
      DependencyReport float
      → DependencyReport float
      → DependencyReport float
      → DependencyReport float
  merge_completeness_family merged left right =
      if left.usage_incomplete || right.usage_incomplete
      then record merged {
        usage_incomplete = true;
        used_exports_count = 0;
        total_exports_count = 0;
        used_percent = float.of_nat 0;
        estimated_unused_bytes = 0;
        suppressed_unused_imports = merge_incomplete_path_evidence left right;
        unused_imports = [];
        unused_exports = [];
        recommendations = [];
        codemod = none;
        removal_candidate = none;
      }
      else record merged { usage_incomplete = false; suppressed_unused_imports = [] }

  -- The loop of `mergeDependency`.
  abbrev merge_families :
      List (
        DependencyReport float
        → DependencyReport float
        → DependencyReport float
        → DependencyReport float)
      → DependencyReport float
      → DependencyReport float
      → DependencyReport float
      → DependencyReport float
  merge_families [] merged left right = merged
  merge_families (family ∷ families) merged left right =
      merge_families families (family merged left right) left right

  -- `dependencyFamilyMergeOrder`.
  abbrev dependency_family_merge_order : List (
      DependencyReport float
      → DependencyReport float
      → DependencyReport float
      → DependencyReport float)
  dependency_family_merge_order =
      merge_export_family ∷ merge_import_family ∷ merge_symbol_family ∷ merge_risk_family
      ∷ merge_codemod_family ∷ merge_runtime_family ∷ merge_metadata_family
      ∷ merge_completeness_family ∷ []

  -- `mergeDependency`.
  unfoldable pub merge_dependency :
      DependencyReport float → DependencyReport float → DependencyReport float
  unfolding merge_export_family merge_import_family merge_symbol_family merge_risk_family
      merge_codemod_family merge_runtime_family merge_metadata_family merge_completeness_family
      merge_incomplete_path_evidence
  merge_dependency left right = merge_families dependency_family_merge_order left left right
