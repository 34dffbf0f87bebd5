-- ===== src/Merge/ImportKeys.antt =====
-- internal/analysis/merge.go: which imports a merged list of imports has, by their keys.
use lopper.Prelude.{
  ◌≡◌, refl, ◌∙◌, ap, Bool, ◌||◌, List, [], ◌∷◌, ◌++◌, map, arith, any, Bool-cases, Option-cases,
  inl, inr,
}
use lopper.Prelude.Counts.{any-append}
use lopper.Prelude.Sorted.{any-sort_by}
use lopper.Text.{Str, str_eq, str_eq_iff}
use lopper.Dict.{Dict, lookup, insert, has_key, values, lookup-insert}
use lopper.Dict.Keyed.{IsKeyed, insert-IsKeyed, any_key-values, key_of_found}
use lopper.Model.Parts.{ImportUse}
use lopper.Merge.Imports.{
  import_use_key, collect_imports, absorb_import, tidy_import, import_use_less, merge_import_uses,
  filter_used_overlaps,
}

-- An import of the list has the key.
abbrev pub has_import : Str → List ImportUse → Bool
has_import key items = any (λ item. str_eq (import_use_key item) key) items

absorb_import-key :
    (current item : ImportUse)
    → import_use_key (absorb_import current item) ≡ import_use_key current
unfolding absorb_import import_use_key
absorb_import-key current item = refl

has_import-map_tidy :
    (key : Str) (items : List ImportUse)
    → has_import key (map tidy_import items) ≡ has_import key items
unfolding tidy_import import_use_key
has_import-map_tidy key [] = refl
has_import-map_tidy key (item ∷ items) =
    ap (λ b. str_eq (import_use_key item) key || b) (has_import-map_tidy key items)

collect_imports-IsKeyed :
    (m : Dict ImportUse) (items : List ImportUse)
    → IsKeyed import_use_key m
    → IsKeyed import_use_key (collect_imports m items)
unfolding collect_imports
collect_imports-IsKeyed m [] h = h
collect_imports-IsKeyed m (item ∷ items) h =
    let key = import_use_key item in
    elim (Option-cases (lookup key m)) [
      | inl new ↦
          rw (new, collect_imports)
            (collect_imports-IsKeyed (insert key item m) items
              (insert-IsKeyed import_use_key key item m refl h))
      | inr (current, old) ↦
          let joined = absorb_import current item in
          rw (old, collect_imports)
            (collect_imports-IsKeyed (insert key joined m) items (
              insert-IsKeyed import_use_key key joined m
                (absorb_import-key current item ∙ key_of_found import_use_key key current m h old)
                h))
    ]

has_key-collect_imports :
    (key : Str) (m : Dict ImportUse) (items : List ImportUse)
    → has_key key (collect_imports m items) ≡ (has_key key m || has_import key items)
unfolding collect_imports
has_key-collect_imports key m [] = ground arith
has_key-collect_imports key m (item ∷ items) =
    let own = import_use_key item in
    elim (Option-cases (lookup own m)) [
      | inl new ↦
          rw (new, collect_imports)
            (ground (
              arith,
              has_key-collect_imports key (insert own item m) items,
              lookup-insert own key item m,
            ))
      | inr (current, old) ↦
          let joined = absorb_import current item in
          rw (old, collect_imports)
            (ground (
              arith,
              has_key-collect_imports key (insert own joined m) items,
              lookup-insert own key joined m,
            ))
    ]

-- A merged list has the imports of both lists, and no other.
pub has_import-merge_import_uses :
    (key : Str) (left right : List ImportUse)
    → has_import key (merge_import_uses left right) ≡ (has_import key left || has_import key right)
unfolding merge_import_uses lookup
has_import-merge_import_uses key left right =
    let collected = collect_imports [] (left ++ right) in
    any-sort_by import_use_less (λ item. str_eq (import_use_key item) key)
      (map tidy_import (values collected))
    ∙ has_import-map_tidy key (values collected)
    ∙ any_key-values import_use_key key collected (collect_imports-IsKeyed [] (left ++ right) tt)
    ∙ has_key-collect_imports key [] (left ++ right)
    ∙ any-append (λ item. str_eq (import_use_key item) key) left right

-- What the filter takes off is used.
pub has_import-filter_used_overlaps :
    (key : Str) (items used : List ImportUse)
    → (has_import key (filter_used_overlaps items used) || has_import key used)
      ≡ (has_import key items || has_import key used)
unfolding filter_used_overlaps
has_import-filter_used_overlaps key [] used = refl
has_import-filter_used_overlaps key (item ∷ items) used =
    elim (Bool-cases (str_eq (import_use_key item) key)) [
      | inl same ↦
          let e = (str_eq_iff (import_use_key item) key).0 same in
          ground
            (arith, has_import-filter_used_overlaps key items used, ap (λ k. has_import k used) e)
      | inr other ↦ ground (arith, has_import-filter_used_overlaps key items used)
    ]
