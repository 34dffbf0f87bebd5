-- ===== src/Prelude/Unique.antt =====
-- Where the order separates the values, sorting does not depend on the order that they came in. So
-- a Go function may range over a map, in any order, and sort what it collected.
use mathlib.Core.List.{Permᴰ}
use lopper.Prelude.{
  ◌≡◌, refl, ap₂, sym, subst, ◌∙◌, Bool, List, [], ◌∷◌, arith, All, Ordering, lt, eq,
  Ordering-cases, inl, inr,
}
use lopper.Prelude.Order.{IsOrder}
use lopper.Prelude.Sort.{is_lt, insert_by, sort_by}

module _ {A : Type 0} {cmp : A → A → Ordering} (o : IsOrder cmp) where
  -- The `less` of the comparison.
  abbrev pub less_of : A → A → Bool
  less_of a b = is_lt (cmp a b)

  insert_comm_lt :
      (a b : A) (l : List A)
      → cmp a b ≡ lt
      → insert_by less_of a (insert_by less_of b l) ≡ insert_by less_of b (insert_by less_of a l)
  unfolding insert_by
  insert_comm_lt a b [] h = ground (arith, o.flipped a b)
  insert_comm_lt a b (y ∷ l) h =
      ground (arith, o.flipped a b, o.transitive y a b, insert_comm_lt a b l)

module _ {A : Type 0} {cmp : A → A → Ordering} (o : IsOrder cmp) (P : A → Type 0)
    (separates : (a b : A) → P a → P b → cmp a b ≡ eq → a ≡ b) where
  insert_comm :
      (a b : A) (l : List A)
      → P a
      → P b
      → insert_by (less_of o) a (insert_by (less_of o) b l)
        ≡ insert_by (less_of o) b (insert_by (less_of o) a l)
  insert_comm a b l p q = elim (Ordering-cases (cmp a b)) [
    | inl less ↦ insert_comm_lt o a b l less
    | inr (inl same) ↦ let e = separates a b p q same in rw e
    | inr (inr greater) ↦ sym (insert_comm_lt o b a l (ground (arith, o.flipped a b)))
  ]

  All-permᴰ : {xs ys : List A} → Permᴰ xs ys → All P xs → All P ys
  All-permᴰ Permᴰ.nil h = h
  All-permᴰ (Permᴰ.cons e p) h = (subst P e h.0, All-permᴰ p h.1)
  All-permᴰ (Permᴰ.swap e f) h = (subst P f h.1.0, (subst P e h.0, h.1.1))
  All-permᴰ (Permᴰ.trans p q) h = All-permᴰ q (All-permᴰ p h)

  -- Two arrangements of values that the order separates are sorted into one list.
  pub sort_by-permᴰ :
      {xs ys : List A} → Permᴰ xs ys → All P xs → sort_by (less_of o) xs ≡ sort_by (less_of o) ys
  unfolding sort_by
  sort_by-permᴰ Permᴰ.nil h = refl
  sort_by-permᴰ (Permᴰ.cons e p) h = ap₂ (insert_by (less_of o)) e (sort_by-permᴰ p h.1)
  sort_by-permᴰ (Permᴰ.swap {l} e f) h =
      rw (e, f) (insert_comm _ _ (sort_by (less_of o) l) (subst P e h.0) (subst P f h.1.0))
  sort_by-permᴰ (Permᴰ.trans p q) h = sort_by-permᴰ p h ∙ sort_by-permᴰ q (All-permᴰ p h)
