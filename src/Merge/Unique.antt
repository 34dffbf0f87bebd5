-- ===== src/Merge/Unique.antt =====
-- internal/analysis/merge.go: `mergeUniqueSorted` and the lists that are merged by it.
use mathlib.Core.List.{Permᴰ}
use lopper.Prelude.{
  ◌≡◌, refl, sym, fun_ext, subst, Bool, List, [], ◌∷◌, ◌++◌, some, arith, Ordering, eq,
  if◌then◌else◌,
}
use lopper.Prelude.Order.{IsOrder, or_else, on_key-IsOrder, or_else-IsOrder}
use lopper.Prelude.Sort.{sort_by, is_lt}
use lopper.Prelude.Unique.{sort_by-permᴰ}
use lopper.Text.{Str, str_eq, str_eq_iff, compare_str, compare_str-IsOrder, eq_of_compare_str}
use lopper.Dict.{Dict, lookup, insert, values}
use lopper.Dict.Keyed.{IsKeyed, insert-IsKeyed, values-found, same_of_key}
use lopper.Model.Parts.{SymbolRef}

module _ {T : Type 0} (key : T → Str) where
  -- The assignments of one of the two loops.
  unfoldable pub collect : Dict T → List T → Dict T
  collect merged [] = merged
  collect merged (elem ∷ elems) = collect (insert (key elem) elem merged) elems

  -- The map of `mergeUniqueSorted` behind both loops.
  unfoldable pub merge_unique : List T → List T → Dict T
  unfolding collect
  merge_unique left right = collect (collect [] left) right

  -- `mergeUniqueSorted`, with a sort by `less`; the loop over the map goes by the order of its keys.
  unfoldable pub merge_unique_sorted : (T → T → Bool) → List T → List T → List T
  unfolding merge_unique sort_by
  merge_unique_sorted less left right = sort_by less (values (merge_unique left right))

  collect-IsKeyed :
      (merged : Dict T) (elems : List T) → IsKeyed key merged → IsKeyed key (collect merged elems)
  unfolding collect
  collect-IsKeyed merged [] h = h
  collect-IsKeyed merged (elem ∷ elems) h =
      collect-IsKeyed (insert (key elem) elem merged) elems
        (insert-IsKeyed key (key elem) elem merged refl h)

  pub merge_unique-IsKeyed : (left right : List T) → IsKeyed key (merge_unique left right)
  unfolding merge_unique
  merge_unique-IsKeyed left right =
      collect-IsKeyed (collect [] left) right (collect-IsKeyed [] left tt)

  -- Where the order tells different keys apart, every order of visiting the map gives one result.
  pub merge_unique_sorted-any_order :
      {cmp : T → T → Ordering} (o : IsOrder cmp)
      → ((a b : T) → cmp a b ≡ eq → key a ≡ key b)
      → (left right visited : List T) → Permᴰ (values (merge_unique left right)) visited
      → sort_by (λ a b. is_lt (cmp a b)) visited
        ≡ merge_unique_sorted (λ a b. is_lt (cmp a b)) left right
  unfolding merge_unique_sorted
  merge_unique_sorted-any_order o keys left right visited p = sym (
      sort_by-permᴰ o (λ a. lookup (key a) (merge_unique left right) ≡ some a)
        (λ a b found found' same.
          same_of_key key (merge_unique left right) a b found found' (keys a b same))
        p (values-found key (merge_unique left right) (merge_unique-IsKeyed left right)))

-- `symbolRefKey`.
unfoldable pub symbol_ref_key : SymbolRef → Str
symbol_ref_key item = item.module_name ++ 0 ∷ item.name

-- The `less` of `sortSymbolRefs`.
unfoldable pub symbol_ref_less : SymbolRef → SymbolRef → Bool
symbol_ref_less a b =
    if str_eq a.module_name b.module_name
    then is_lt (compare_str a.name b.name)
    else is_lt (compare_str a.module_name b.module_name)

-- `mergeSymbolRefs`.
unfoldable pub merge_symbol_refs : List SymbolRef → List SymbolRef → List SymbolRef
merge_symbol_refs = merge_unique_sorted symbol_ref_key symbol_ref_less

-- `symbol_ref_less` is that of the comparison by module, then by name.
compare_symbol_refs : SymbolRef → SymbolRef → Ordering
compare_symbol_refs a b =
    or_else (compare_str a.module_name b.module_name) (compare_str a.name b.name)

compare_symbol_refs-IsOrder : IsOrder compare_symbol_refs
unfolding compare_symbol_refs
compare_symbol_refs-IsOrder =
    or_else-IsOrder (on_key-IsOrder (λ (s : SymbolRef). s.module_name) compare_str-IsOrder)
      (on_key-IsOrder (λ (s : SymbolRef). s.name) compare_str-IsOrder)

symbol_ref_less-compare : (a b : SymbolRef) → is_lt (compare_symbol_refs a b) ≡ symbol_ref_less a b
unfolding compare_symbol_refs symbol_ref_less
symbol_ref_less-compare a b = ground (
  arith,
  str_eq_iff a.module_name b.module_name,
  eq_of_compare_str a.module_name b.module_name,
  compare_str-IsOrder.reflexive a.module_name,
)

same_symbol_key :
    (a b : SymbolRef) → compare_symbol_refs a b ≡ eq → symbol_ref_key a ≡ symbol_ref_key b
unfolding compare_symbol_refs symbol_ref_key
same_symbol_key a b h =
    ground (arith, eq_of_compare_str a.module_name b.module_name, eq_of_compare_str a.name b.name)

-- `mergeSymbolRefs` returns one list, in whatever order it visits its map.
pub merge_symbol_refs-any_order :
    (left right visited : List SymbolRef)
    → Permᴰ (values (merge_unique symbol_ref_key left right)) visited
    → sort_by symbol_ref_less visited ≡ merge_symbol_refs left right
unfolding merge_symbol_refs
merge_symbol_refs-any_order left right visited p =
    let any_order =
      merge_unique_sorted-any_order symbol_ref_key compare_symbol_refs-IsOrder same_symbol_key left
        right visited p in
    subst (λ less. sort_by less visited ≡ merge_unique_sorted symbol_ref_key less left right)
      (fun_ext λ a. fun_ext λ b. symbol_ref_less-compare a b) any_order
