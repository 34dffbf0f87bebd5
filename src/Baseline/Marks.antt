-- ===== src/Baseline/Marks.antt =====
-- internal/report/baseline_diff.go: the flags of the indexes that are matched, over items with an
-- index.
use lopper.Prelude.{
  ℕ, ◌+◌, ◌-◌, ◌*◌, ◌≤◌, ◌≡◌, refl, Bool, true, false, not, ◌||◌, List, [], ◌∷◌, arith, All, any,
  ◌==◌, if◌then◌else◌, Bool-cases, inl, inr,
}
use lopper.Prelude.Sorted.{Pairwise}
use lopper.Prelude.Counts.{total, count_if, keep_if, total-keep_if}

module _ {A : Type 0} where
  total-or :
      (p q : A → Bool) (xs : List A) → count_if (λ x. p x || q x) xs ≤ count_if p xs + count_if q xs
  unfolding total
  total-or p q [] = omega arith
  total-or p q (x ∷ xs) = ground (arith, total-or p q xs)

  total-if :
      (f : A → ℕ) (test : A → Bool) (xs : List A)
      → total (λ x. if test x then f x else 0) xs ≡ total f (keep_if test xs)
  unfolding total keep_if
  total-if f test [] = refl
  total-if f test (x ∷ xs) = ground (arith, total-if f test xs)

  total-if_all :
      (f : A → ℕ) (test : A → Bool) (xs : List A)
      → All (λ x. test x ≡ true) xs
      → total (λ x. if test x then f x else 0) xs ≡ total f xs
  unfolding total
  total-if_all f test [] h = refl
  total-if_all f test (x ∷ xs) h = ground (arith, total-if_all f test xs h.1)

  total-one : (test : A → Bool) (xs : List A) → total (λ x. 1) (keep_if test xs) ≡ count_if test xs
  unfolding total keep_if
  total-one test [] = refl
  total-one test (x ∷ xs) = ground (arith, total-one test xs)

  -- What is missing up to a bound.
  total-missing :
      (bound : ℕ) (f : A → ℕ) (xs : List A)
      → total f xs ≤ bound
      → total (λ x. bound - f x) xs + total f xs ≡ bound * total (λ x. 1) xs
  unfolding total
  total-missing bound f [] h = omega arith
  total-missing bound f (x ∷ xs) h = grind (arith, total-missing bound f xs)

  -- Two lists of one length, where no sum over the first is above that over the second, have the same
  -- sums.
  total-eq_of_le :
      (xs ys : List A)
      → ((f : A → ℕ) → total f xs ≤ total f ys)
      → total (λ x. 1) ys ≤ total (λ x. 1) xs
      → (f : A → ℕ) → total f xs ≡ total f ys
  total-eq_of_le xs ys below long f =
      let bound = total f xs + total f ys in
      let same : total (λ x. 1) xs ≡ total (λ x. 1) ys = omega (arith, below (λ x. 1)) in
      let left = total-missing bound f xs (omega arith) in
      let right = total-missing bound f ys (omega arith) in
      omega (arith, below f, below (λ x. bound - f x), rw same at left)

module _ {A : Type 0} (ordinal : A → ℕ) where
  abbrev pub Distinct : A → A → Type 0
  Distinct a b = (ordinal a == ordinal b) ≡ false

  abbrev pub marked : List A → A → Bool
  marked marks x = any (λ other. ordinal other == ordinal x) marks

  count-none :
      (a x : A) (xs : List A)
      → (ordinal a == ordinal x) ≡ true
      → All (λ y. Distinct x y) xs
      → count_if (λ y. ordinal a == ordinal y) xs ≡ 0
  unfolding total
  count-none a x [] same h = refl
  count-none a x (y ∷ xs) same h = ground (arith, count-none a x xs same h.1)

  count-once :
      (a : A) (xs : List A) → Pairwise Distinct xs → count_if (λ x. ordinal a == ordinal x) xs ≤ 1
  unfolding total
  count-once a [] h = omega arith
  count-once a (x ∷ xs) h = elim (Bool-cases (ordinal a == ordinal x)) [
    | inl same ↦ ground (arith, count-none a x xs same h.0)
    | inr other ↦ ground (arith, count-once a xs h.1)
  ]

  count-no_marks : (xs : List A) → count_if (marked []) xs ≡ 0
  unfolding total
  count-no_marks [] = refl
  count-no_marks (x ∷ xs) = omega (arith, count-no_marks xs)

  count-marked :
      (marks xs : List A) → Pairwise Distinct xs → count_if (marked marks) xs ≤ total (λ x. 1) marks
  unfolding total
  count-marked [] xs h = omega (arith, count-no_marks xs)
  count-marked (a ∷ marks) xs h = omega (
    arith,
    total-or (λ x. ordinal a == ordinal x) (marked marks) xs,
    count-once a xs h,
    count-marked marks xs h,
  )

  marked_all :
      (marks xs : List A)
      → ((x : A) → marked xs x ≡ true → marked marks x ≡ true)
      → All (λ x. marked marks x ≡ true) xs
  marked_all marks [] h = tt
  marked_all marks (x ∷ xs) h =
      (h x (ground arith), marked_all marks xs (λ y k. h y (ground arith)))

  among :
      (marks xs : List A)
      → ((f : A → ℕ) → total f marks ≤ total f xs)
      → (f : A → ℕ) → total f marks ≤ total f (keep_if (marked marks) xs)
  among marks xs below f = omega (
    arith,
    total-if_all f (marked marks) marks (marked_all marks marks (λ x h. h)),
    total-if f (marked marks) xs,
    below (λ x. if marked marks x then f x else 0),
  )

  -- Where the marked items are among the list, which has each index once, they and the items without
  -- a mark are the list.
  pub total-unmarked :
      (marks xs : List A)
      → Pairwise Distinct xs
      → ((f : A → ℕ) → total f marks ≤ total f xs)
      → (f : A → ℕ) → total f marks + total f (keep_if (λ x. not (marked marks x)) xs) ≡ total f xs
  total-unmarked marks xs distinct below f = omega (
    arith,
    total-keep_if f (marked marks) xs,
    total-eq_of_le marks (keep_if (marked marks) xs) (among marks xs below)
        (rw total-one (count-marked marks xs distinct)) f,
  )
