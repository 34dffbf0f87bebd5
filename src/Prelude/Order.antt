-- ===== src/Prelude/Order.antt =====
-- Three-way comparisons. Go's functions that return -1, 0 or 1 return an `Ordering` here.
use Prim.Native.Nat.{compare, Ordering}
use Prim.Native.Nat.Ordering.{lt, eq, gt}
use mathlib.Core.Path.{◌≡◌, refl}
use mathlib.Core.List.{List, [], ◌∷◌}
use native.Mathlib.Omega.{arith}

-- The comparison with its sides exchanged: `-cmp`.
abbrev pub flip : Ordering → Ordering
flip lt = gt
flip eq = eq
flip gt = lt

-- `if cmp := first; cmp != 0 { return cmp }; return second`
abbrev pub or_else : Ordering → Ordering → Ordering
or_else lt o = lt
or_else eq o = o
or_else gt o = gt

-- A comparison that orders its values in a line, where equal rank need not be equality.
pub record IsOrder {ℓ} {A : Type ℓ} (cmp : A → A → Ordering) : Type ℓ where
  pub reflexive : (a : A) → cmp a a ≡ eq
  pub flipped : (a b : A) → cmp b a ≡ flip (cmp a b)
  pub same_rank : (a b c : A) → cmp a b ≡ eq → cmp a c ≡ cmp b c
  pub transitive : (a b c : A) → cmp a b ≡ lt → cmp b c ≡ lt → cmp a c ≡ lt

pub compare-IsOrder : IsOrder compare
compare-IsOrder = record {
  reflexive = λ a. ground arith;
  flipped = λ a b. ground arith;
  same_rank = λ a b c h. ground arith;
  transitive = λ a b c h k. ground arith;
}

-- Values compared by a key.
pub on_key-IsOrder {ℓ κ} :
    {A : Type ℓ} {B : Type κ} (key : A → B) {cmp : B → B → Ordering}
    → IsOrder cmp
    → IsOrder (λ a b. cmp (key a) (key b))
on_key-IsOrder key o = record {
  reflexive = λ a. o.reflexive (key a);
  flipped = λ a b. o.flipped (key a) (key b);
  same_rank = λ a b c. o.same_rank (key a) (key b) (key c);
  transitive = λ a b c. o.transitive (key a) (key b) (key c);
}

-- A second comparison decides where the first finds no difference.
pub or_else-IsOrder {ℓ} :
    {A : Type ℓ} {first second : A → A → Ordering}
    → IsOrder first
    → IsOrder second
    → IsOrder (λ a b. or_else (first a b) (second a b))
or_else-IsOrder o p = record {
  reflexive = λ a. ground (arith, o.reflexive a, p.reflexive a);
  flipped = λ a b. ground (arith, o.flipped a b, p.flipped a b);
  same_rank = λ a b c h. ground (arith, o.same_rank a b c, p.same_rank a b c);
  transitive = λ a b c h k. ground (
    arith,
    o.transitive a b c,
    p.transitive a b c,
    o.same_rank a b c,
    o.same_rank b c a,
    o.flipped a c,
    o.flipped a b,
    o.flipped b c,
  );
}

-- The comparison of lists by their first difference; a shorter list goes before a longer one.
unfoldable pub compare_list {ℓ} : {A : Type ℓ} → (A → A → Ordering) → List A → List A → Ordering
compare_list cmp [] [] = eq
compare_list cmp [] (y ∷ ys) = lt
compare_list cmp (x ∷ xs) [] = gt
compare_list cmp (x ∷ xs) (y ∷ ys) = or_else (cmp x y) (compare_list cmp xs ys)

module _ {ℓ} {A : Type ℓ} {cmp : A → A → Ordering} (o : IsOrder cmp) where
  list_reflexive : (a : List A) → compare_list cmp a a ≡ eq
  unfolding compare_list
  list_reflexive [] = refl
  list_reflexive (x ∷ a) = ground (arith, o.reflexive x, list_reflexive a)

  list_flipped : (a b : List A) → compare_list cmp b a ≡ flip (compare_list cmp a b)
  unfolding compare_list
  list_flipped [] [] = refl
  list_flipped [] (y ∷ b) = refl
  list_flipped (x ∷ a) [] = refl
  list_flipped (x ∷ a) (y ∷ b) = ground (arith, o.flipped x y, list_flipped a b)

  list_same_rank :
      (a b c : List A) → compare_list cmp a b ≡ eq → compare_list cmp a c ≡ compare_list cmp b c
  unfolding compare_list
  list_same_rank [] [] c h = refl
  list_same_rank [] (y ∷ b) c h = cc
  list_same_rank (x ∷ a) [] c h = cc
  list_same_rank (x ∷ a) (y ∷ b) [] h = refl
  list_same_rank (x ∷ a) (y ∷ b) (z ∷ c) h = ground (arith, o.same_rank x y z, list_same_rank a b c)

  list_transitive :
      (a b c : List A)
      → compare_list cmp a b ≡ lt
      → compare_list cmp b c ≡ lt
      → compare_list cmp a c ≡ lt
  unfolding compare_list
  list_transitive a [] [] h k = cc
  list_transitive [] b (z ∷ c) h k = refl
  list_transitive a (y ∷ b) [] h k = cc
  list_transitive (x ∷ a) [] (z ∷ c) h k = cc
  list_transitive (x ∷ a) (y ∷ b) (z ∷ c) h k = ground (
    arith,
    o.transitive x y z,
    list_transitive a b c,
    o.same_rank x y z,
    o.same_rank y z x,
    o.flipped x z,
    o.flipped x y,
    o.flipped y z,
  )

  pub compare_list-IsOrder : IsOrder (compare_list cmp)
  compare_list-IsOrder = record {
    reflexive = list_reflexive;
    flipped = list_flipped;
    same_rank = list_same_rank;
    transitive = list_transitive;
  }
