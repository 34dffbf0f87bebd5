-- ===== src/Merge/Counts.antt =====
-- internal/analysis/merge.go: the counts of the counted lists.
use lopper.Prelude.{
  ℕ, ◌+◌, ◌≡◌, refl, ◌∙◌, List, [], ◌∷◌, ◌++◌, none, some, arith, inl, inr, Option-cases,
}
use lopper.Prelude.Counts.{total, total-append, total-sort_by}
use lopper.Text.{Str}
use lopper.Dict.{Dict, lookup, insert, values}
use lopper.Model.Parts.{RuntimeModuleUsage}
use lopper.Merge.Runtime.{
  tally, merge_runtime_module_usage, module_usage_less, module_key, module_with_count,
}

module _ {A : Type 0} (count_of : A → ℕ) where
  pub insert-new :
      (k : Str) (v : A) (m : Dict A)
      → lookup k m ≡ none
      → total count_of (values (insert k v m)) ≡ total count_of (values m) + count_of v
  unfolding total lookup insert values
  insert-new k v [] h = omega arith
  insert-new k v ((j, w) ∷ m) h = ground (arith, insert-new k v m)

  pub insert-over :
      (k : Str) (v w : A) (m : Dict A)
      → lookup k m ≡ some w
      → total count_of (values (insert k v m)) + count_of w ≡ total count_of (values m) + count_of v
  unfolding total lookup insert values
  insert-over k v w [] h = ground arith
  insert-over k v w ((j, u) ∷ m) h = ground (arith, insert-over k v w m)

  module _ (key : A → Str) (with_count : ℕ → A → A)
      (counted : (n : ℕ) (item : A) → count_of (with_count n item) ≡ n) where
    total-tally :
        (merged : Dict A) (items : List A)
        → total count_of (values (tally key count_of with_count merged items))
          ≡ total count_of (values merged) + total count_of items
    unfolding tally total
    total-tally merged [] = omega arith
    total-tally merged (item ∷ items) = elim (Option-cases (lookup (key item) merged)) [
      | inl h ↦ ground (
        arith,
        total-tally (insert (key item) item merged) items,
        insert-new (key item) item merged h,
      )
      | inr (current, h) ↦
          let sum = with_count (count_of current + count_of item) current in
          ground (
            arith,
            counted (count_of current + count_of item) current,
            total-tally (insert (key item) sum merged) items,
            insert-over (key item) sum current merged h,
          )
    ]

-- The merged list of modules counts as many loads as the two lists together.
pub merge_runtime_module_usage-total :
    (left right : List RuntimeModuleUsage)
    → total (λ item. item.count) (merge_runtime_module_usage left right)
      ≡ total (λ item. item.count) left + total (λ item. item.count) right
unfolding merge_runtime_module_usage total values
merge_runtime_module_usage-total left right =
    total-sort_by (λ item. item.count) module_usage_less _
    ∙ total-tally (λ item. item.count) module_key module_with_count (λ n item. refl) []
        (left ++ right)
    ∙ omega (arith, total-append (λ item. item.count) left right)
