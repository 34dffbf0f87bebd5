-- ===== src/Text/Ascending.antt =====
-- `sort.Strings` of texts that differ puts them in strictly ascending order.
use lopper.Prelude.{◌≡◌, Bool, true, false, any, All, List, [], ◌∷◌, arith, lt}
use lopper.Prelude.Sort.{sort_by, is_lt}
use lopper.Prelude.Sorted.{Pairwise, sort_by-Pairwise, sort_by-keeps, Pairwise-both}
use lopper.Text.{
  Str, str_eq, str_eq_iff, str_eq_refl, compare_str, compare_str-IsOrder, eq_of_compare_str,
}

abbrev pub Differ : Str → Str → Type 0
Differ a b = str_eq a b ≡ false

-- One text goes before another.
abbrev pub Before : Str → Str → Type 0
Before a b = compare_str a b ≡ lt

abbrev NotAfter : Str → Str → Type 0
NotAfter a b = is_lt (compare_str b a) ≡ false

NotAfter-chain : (a b c : Str) → NotAfter a b → NotAfter b c → NotAfter a c
NotAfter-chain a b c h k = ground (
  arith,
  compare_str-IsOrder.flipped a b,
  compare_str-IsOrder.flipped b c,
  compare_str-IsOrder.flipped a c,
  compare_str-IsOrder.transitive a b c,
  compare_str-IsOrder.same_rank a b c,
  compare_str-IsOrder.same_rank b c a,
)

-- `sort.Strings`.
abbrev pub sort_strings : List Str → List Str
sort_strings items = sort_by (λ a b. is_lt (compare_str a b)) items

pub sort_strings-Before :
    (items : List Str) → Pairwise Differ items → Pairwise Before (sort_strings items)
sort_strings-Before items differ =
    let less = λ (a b : Str). is_lt (compare_str a b) in
    Pairwise-both NotAfter Differ Before
      (λ a b h k.
        ground (arith, eq_of_compare_str a b, str_eq_iff a b, compare_str-IsOrder.flipped a b))
      (sort_by less items)
      (sort_by-Pairwise NotAfter less (λ a b h. ground (arith, compare_str-IsOrder.flipped a b))
        (λ a b h. h) NotAfter-chain items)
      (sort_by-keeps less Differ (λ a b h. ground (arith, str_eq_iff a b, str_eq_iff b a)) items
        differ)

-- The text is in the list.
abbrev pub has : Str → List Str → Bool
has s items = any (λ item. str_eq item s) items

pub All-of_has :
    (P : Str → Type 0) (items : List Str) → ((s : Str) → has s items ≡ true → P s) → All P items
All-of_has P [] all = tt
All-of_has P (item ∷ items) all =
    (all item (ground (arith, str_eq_refl item)), All-of_has P items (λ s h. all s (ground arith)))
