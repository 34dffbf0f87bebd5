-- ===== src/Merge/Safety.antt =====
-- internal/analysis/merge.go: what `mergeDependency` never reports as unused.
use lopper.Prelude.{◌≡◌, false, ◌||◌, List, [], ◌∷◌, All, Bool-cases, inl, inr}
use lopper.Model.Parts.{ImportUse}
use lopper.Merge.Imports.{filter_used_overlaps, is_used_in}
use lopper.Float.{Float64}
use lopper.Model.Dependency.{DependencyReport}
use lopper.Merge.Families.{merge_dependency}

filter_used_overlaps_lem :
    (items used : List ImportUse)
    → All (λ item. is_used_in used item ≡ false) (filter_used_overlaps items used)
unfolding filter_used_overlaps
filter_used_overlaps_lem [] used = tt
filter_used_overlaps_lem (item ∷ items) used = elim (Bool-cases (is_used_in used item)) [
  | inl h ↦ rw h (filter_used_overlaps_lem items used)
  | inr h ↦ rw h (h, filter_used_overlaps_lem items used)
]

module _ (float : Float64) (left right : DependencyReport float) where
  -- No import of a merged report is both used and unused.
  pub merge_dependency-unused :
      All
        (λ item. is_used_in (merge_dependency float left right).used_imports item ≡ false)
        (merge_dependency float left right).unused_imports
  unfolding merge_dependency
  merge_dependency-unused = elim (Bool-cases (left.usage_incomplete || right.usage_incomplete)) [
    | inl h ↦ rw h tt
    | inr h ↦ rw h (filter_used_overlaps_lem _ _)
  ]
