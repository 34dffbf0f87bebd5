-- ===== src/Prelude/Counts.antt =====
-- Lists of which a test keeps a part, sums over a list, and how many elements pass a test.
use lopper.Prelude.{
  ℕ, ◌+◌, ◌≡◌, refl, Bool, true, false, not, ◌||◌, any, All, Bool-cases, inl, inr, List, [], ◌∷◌,
  ◌++◌, arith, if◌then◌else◌,
}
use lopper.Prelude.Sort.{insert_by, sort_by}

-- The sum of a list's counts.
unfoldable pub total {ℓ} : {A : Type ℓ} → (A → ℕ) → List A → ℕ
total count_of [] = 0
total count_of (item ∷ items) = count_of item + total count_of items

module _ {ℓ} {A : Type ℓ} (count_of : A → ℕ) where
  pub total-append :
      (xs ys : List A) → total count_of (xs ++ ys) ≡ total count_of xs + total count_of ys
  unfolding total
  total-append [] ys = omega arith
  total-append (x ∷ xs) ys = ground (arith, total-append xs ys)

  total-insert_by :
      (less : A → A → Bool) (x : A) (ys : List A)
      → total count_of (insert_by less x ys) ≡ count_of x + total count_of ys
  unfolding total insert_by
  total-insert_by less x [] = refl
  total-insert_by less x (y ∷ ys) = ground (arith, total-insert_by less x ys)

  pub total-sort_by :
      (less : A → A → Bool) (xs : List A) → total count_of (sort_by less xs) ≡ total count_of xs
  unfolding total sort_by
  total-sort_by less [] = refl
  total-sort_by less (x ∷ xs) =
      ground (arith, total-insert_by less x (sort_by less xs), total-sort_by less xs)

abbrev pub one_if : Bool → ℕ
one_if true = 1
one_if false = 0

module _ {ℓ} {A : Type ℓ} where
  -- The elements that pass a test.
  unfoldable pub keep_if : (A → Bool) → List A → List A
  keep_if test [] = []
  keep_if test (x ∷ xs) = let rest = keep_if test xs in if test x then x ∷ rest else rest

  -- How many elements pass it.
  abbrev pub count_if : (A → Bool) → List A → ℕ
  count_if test xs = total (λ x. one_if (test x)) xs

  pub total-keep_if :
      (f : A → ℕ) (test : A → Bool) (xs : List A)
      → total f (keep_if test xs) + total f (keep_if (λ x. not (test x)) xs) ≡ total f xs
  unfolding keep_if total
  total-keep_if f test [] = refl
  total-keep_if f test (x ∷ xs) = ground (arith, total-keep_if f test xs)

  pub any-append :
      (test : A → Bool) (xs ys : List A) → any test (xs ++ ys) ≡ (any test xs || any test ys)
  any-append test [] ys = refl
  any-append test (x ∷ xs) ys = ground (arith, any-append test xs ys)

  pub All-keep_if :
      (P : A → Type 0) (test : A → Bool) (xs : List A) → All P xs → All P (keep_if test xs)
  unfolding keep_if
  All-keep_if P test [] h = tt
  All-keep_if P test (x ∷ xs) h = elim (Bool-cases (test x)) [
    | inl kept ↦ rw kept ((h.0, All-keep_if P test xs h.1))
    | inr left ↦ rw left (All-keep_if P test xs h.1)
  ]
