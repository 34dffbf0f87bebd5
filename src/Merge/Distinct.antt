-- ===== src/Merge/Distinct.antt =====
-- internal/analysis/merge.go: which elements the result of `mergeUniqueSorted` has.
use lopper.Prelude.{
  ◌≡◌, ap₂, sym, ◌∙◌, Bool, ◌||◌, List, [], ◌∷◌, arith, All, any, Bool-cases, inl, inr, refl,
}
use lopper.Prelude.Sort.{All-sort_by}
use lopper.Prelude.Sorted.{any-sort_by}
use lopper.Text.{Str, str_eq}
use lopper.Dict.{Dict, lookup, insert, values, has_key, lookup-insert}
use lopper.Dict.Keyed.{any_key-values}
use lopper.Merge.Unique.{collect, merge_unique, merge_unique_sorted, merge_unique-IsKeyed}

All-values-insert :
    {T : Type 0} (P : T → Type 0) (k : Str) (v : T) (m : Dict T)
    → P v
    → All P (values m)
    → All P (values (insert k v m))
unfolding values insert
All-values-insert P k v [] p h = (p, tt)
All-values-insert P k v ((j, w) ∷ m) p h = elim (Bool-cases (str_eq j k)) [
  | inl same ↦ rw same (p, h.1)
  | inr other ↦ rw other (h.0, All-values-insert P k v m p h.1)
]

module _ {T : Type 0} (key : T → Str) where
  -- An element of the list has the key.
  abbrev has_item : Str → List T → Bool
  has_item k items = any (λ item. str_eq (key item) k) items

  has_key-collect :
      (k : Str) (m : Dict T) (items : List T)
      → has_key k (collect key m items) ≡ (has_key k m || has_item k items)
  unfolding collect
  has_key-collect k m [] = ground arith
  has_key-collect k m (item ∷ items) =
      ground (
        arith,
        has_key-collect k (insert (key item) item m) items,
        lookup-insert (key item) k item m,
      )

  has_item-merge_unique_sorted :
      (less : T → T → Bool) (k : Str) (left right : List T)
      → has_item k (merge_unique_sorted key less left right) ≡ (has_item k left || has_item k right)
  unfolding merge_unique_sorted merge_unique lookup
  has_item-merge_unique_sorted less k left right =
      any-sort_by less (λ item. str_eq (key item) k) (values (merge_unique key left right))
      ∙ any_key-values key k (merge_unique key left right) (merge_unique-IsKeyed key left right)
      ∙ has_key-collect k (collect key [] left) right
      ∙ ap₂ ◌||◌ (has_key-collect k [] left) refl

  module _ (P : T → Type 0) where
    All-collect :
        (m : Dict T) (items : List T)
        → All P (values m)
        → All P items
        → All P (values (collect key m items))
    unfolding collect
    All-collect m [] h k = h
    All-collect m (item ∷ items) h k =
        All-collect (insert (key item) item m) items (All-values-insert P (key item) item m k.0 h)
          k.1

    All-merge_unique_sorted :
        (less : T → T → Bool) (left right : List T)
        → All P left
        → All P right
        → All P (merge_unique_sorted key less left right)
    unfolding merge_unique_sorted merge_unique values
    All-merge_unique_sorted less left right h k =
        All-sort_by P less _ (All-collect (collect key [] left) right (All-collect [] left tt h) k)

    -- Where the keys of such elements tell apart what a test tells apart, the merged list has an
    -- element like the given one exactly if one of the two lists has.
    module _ (same : T → T → Bool)
        (agree : (a b : T) → P a → P b → same a b ≡ str_eq (key a) (key b)) (x : T) (px : P x) where
      any_same-has_item :
          (items : List T) → All P items → any (λ item. same item x) items ≡ has_item (key x) items
      any_same-has_item [] h = refl
      any_same-has_item (item ∷ items) h =
          ap₂ ◌||◌ (agree item x h.0 px) (any_same-has_item items h.1)

      pub any_same-merge_unique_sorted :
          (less : T → T → Bool) (left right : List T)
          → All P left
          → All P right
          → any (λ item. same item x) (merge_unique_sorted key less left right)
            ≡ (any (λ item. same item x) left || any (λ item. same item x) right)
      any_same-merge_unique_sorted less left right h k =
          any_same-has_item _ (All-merge_unique_sorted less left right h k)
          ∙ has_item-merge_unique_sorted less (key x) left right
          ∙ sym (ap₂ ◌||◌ (any_same-has_item left h) (any_same-has_item right k))
