-- ===== src/Merge/Evidence.antt =====
-- internal/analysis/merge.go: what becomes of the imports and of the incomplete usage of two reports
-- that `mergeDependency` merges.
use lopper.Prelude.{
  ◌≡◌, Bool, true, false, ◌&&◌, ◌||◌, List, [], ◌∷◌, Option, none, some, arith, Bool-cases, inl,
  inr,
}
use lopper.Text.{Str}
use lopper.Float.{Float64}
use lopper.Model.Dependency.{DependencyReport}
use lopper.Merge.Imports.{merge_import_uses}
use lopper.Merge.ImportKeys.{
  has_import, has_import-merge_import_uses, has_import-filter_used_overlaps,
}
use lopper.Merge.Families.{merge_dependency}

abbrev pub is_some : {A : Type 0} → Option A → Bool
is_some none = false
is_some (some value) = true

abbrev pub is_nonempty : {A : Type 0} → List A → Bool
is_nonempty [] = false
is_nonempty (item ∷ items) = true

module _ (float : Float64) where
  -- A report says of an import that it is used, that it is unused, or, where the usage is incomplete,
  -- that it would be unused.
  abbrev pub mentions : Str → DependencyReport float → Bool
  mentions key dep =
      has_import key dep.used_imports
      || has_import key dep.unused_imports
      || dep.usage_incomplete && has_import key dep.suppressed_unused_imports

  -- A report gives advice to remove something although its usage is incomplete.
  abbrev pub is_misleading : DependencyReport float → Bool
  is_misleading dep =
      dep.usage_incomplete
      && (is_nonempty dep.unused_imports
          || is_nonempty dep.unused_exports
          || is_nonempty dep.recommendations
          || is_some dep.codemod
          || is_some dep.removal_candidate)

  pub merge_dependency-usage_incomplete :
      (left right : DependencyReport float)
      → (merge_dependency float left right).usage_incomplete
        ≡ (left.usage_incomplete || right.usage_incomplete)
  unfolding merge_dependency
  merge_dependency-usage_incomplete left right =
      elim (Bool-cases (left.usage_incomplete || right.usage_incomplete)) [
        | inl h ↦ rw h
        | inr h ↦ rw h
      ]

  pub merge_dependency-is_misleading :
      (left right : DependencyReport float)
      → is_misleading (merge_dependency float left right) ≡ false
  unfolding merge_dependency
  merge_dependency-is_misleading left right =
      elim (Bool-cases (left.usage_incomplete || right.usage_incomplete)) [
        | inl h ↦ rw h
        | inr h ↦ rw h
      ]

  -- What either report mentions, the merged one does.
  pub merge_dependency-mentions :
      (key : Str) (left right : DependencyReport float)
      → (mentions key left || mentions key right) ≡ true
      → mentions key (merge_dependency float left right) ≡ true
  unfolding merge_dependency
  merge_dependency-mentions key left right h =
      let used = has_import-merge_import_uses key left.used_imports right.used_imports in
      elim (Bool-cases (left.usage_incomplete || right.usage_incomplete)) [
        | inl incomplete ↦
            let suppressed =
              merge_import_uses left.suppressed_unused_imports right.suppressed_unused_imports in
            let with_left = merge_import_uses suppressed left.unused_imports in
            rw incomplete (
              ground (
                arith,
                used,
                has_import-merge_import_uses key left.suppressed_unused_imports
                    right.suppressed_unused_imports,
                has_import-merge_import_uses key suppressed left.unused_imports,
                has_import-merge_import_uses key with_left right.unused_imports,
              ))
        | inr complete ↦ rw complete (
            ground (
              arith,
              used,
              has_import-merge_import_uses key left.unused_imports right.unused_imports,
              has_import-filter_used_overlaps key
                  (merge_import_uses left.unused_imports right.unused_imports)
                  (merge_import_uses left.used_imports right.used_imports),
            ))
      ]
