-- ===== src/Prelude/Sorted.antt =====
-- What a sort by the program's own `less` returns: neighbours in order, and no element lost.
use lopper.Prelude.{
  ◌≡◌, refl, Bool, true, false, ◌||◌, List, [], ◌∷◌, ◌++◌, All, All-map, any, arith, Bool-cases,
  inl, inr,
}
use lopper.Prelude.Counts.{keep_if, All-keep_if}
use lopper.Prelude.Sort.{insert_by, sort_by, All-insert_by, All-sort_by}

-- Every element stands in the relation to all that follow it.
abbrev pub Pairwise {ℓ} : {A : Type ℓ} → (A → A → Type 0) → List A → Type 0
Pairwise R [] = Unit
Pairwise R (x ∷ xs) = All (λ y. R x y) xs × Pairwise R xs

module _ {ℓ} {A : Type ℓ} (R : A → A → Type 0) (less : A → A → Bool)
    (before : (a b : A) → less a b ≡ true → R a b) (after : (a b : A) → less a b ≡ false → R b a)
    (chain : (a b c : A) → R a b → R b c → R a c) where
  insert_by-Pairwise : (x : A) (ys : List A) → Pairwise R ys → Pairwise R (insert_by less x ys)
  unfolding insert_by
  insert_by-Pairwise x [] h = (tt, tt)
  insert_by-Pairwise x (y ∷ ys) h = elim (Bool-cases (less y x)) [
    | inl first ↦
        rw first (
          (
            All-insert_by (λ z. R y z) less x ys (before y x first) h.0,
            insert_by-Pairwise x ys h.1,
          ))
    | inr second ↦
        rw second
          (let here = after y x second in ((here, All-map (λ z. chain x y z here) ys h.0), h))
  ]

  pub sort_by-Pairwise : (xs : List A) → Pairwise R (sort_by less xs)
  unfolding sort_by
  sort_by-Pairwise [] = tt
  sort_by-Pairwise (x ∷ xs) = insert_by-Pairwise x (sort_by less xs) (sort_by-Pairwise xs)

-- What holds of all elements of the sorted list holds of all elements.
module _ {ℓ} {A : Type ℓ} (P : A → Type 0) (less : A → A → Bool) where
  All-of_insert_by : (x : A) (ys : List A) → All P (insert_by less x ys) → P x × All P ys
  unfolding insert_by
  All-of_insert_by x [] h = h
  All-of_insert_by x (y ∷ ys) h = elim (Bool-cases (less y x)) [
    | inl first ↦
        let both = rw first at h in
        let rest = All-of_insert_by x ys both.1 in (rest.0, (both.0, rest.1))
    | inr second ↦ rw second at h
  ]

  pub All-of_sort_by : (xs : List A) → All P (sort_by less xs) → All P xs
  unfolding sort_by
  All-of_sort_by [] h = tt
  All-of_sort_by (x ∷ xs) h =
      let both = All-of_insert_by x (sort_by less xs) h in (both.0, All-of_sort_by xs both.1)

-- Sorting keeps what elements pass a test, and a relation that holds in both directions.
module _ {ℓ} {A : Type ℓ} (less : A → A → Bool) where
  any-insert_by :
      (test : A → Bool) (x : A) (ys : List A)
      → any test (insert_by less x ys) ≡ (test x || any test ys)
  unfolding insert_by
  any-insert_by test x [] = refl
  any-insert_by test x (y ∷ ys) = ground (arith, any-insert_by test x ys)

  pub any-sort_by : (test : A → Bool) (xs : List A) → any test (sort_by less xs) ≡ any test xs
  unfolding sort_by
  any-sort_by test [] = refl
  any-sort_by test (x ∷ xs) =
      ground (arith, any-insert_by test x (sort_by less xs), any-sort_by test xs)

  module _ (R : A → A → Type 0) (turn : (a b : A) → R a b → R b a) where
    insert_by-keeps :
        (x : A) (ys : List A)
        → All (λ y. R x y) ys
        → Pairwise R ys
        → Pairwise R (insert_by less x ys)
    unfolding insert_by
    insert_by-keeps x [] h k = (tt, tt)
    insert_by-keeps x (y ∷ ys) h k = elim (Bool-cases (less y x)) [
      | inl first ↦
          rw first (
            (All-insert_by (λ z. R y z) less x ys (turn x y h.0) k.0, insert_by-keeps x ys h.1 k.1))
      | inr second ↦ rw second ((h, k))
    ]

    pub sort_by-keeps : (xs : List A) → Pairwise R xs → Pairwise R (sort_by less xs)
    unfolding sort_by
    sort_by-keeps [] h = tt
    sort_by-keeps (x ∷ xs) h =
        insert_by-keeps x (sort_by less xs) (All-sort_by (λ y. R x y) less xs h.0)
          (sort_by-keeps xs h.1)

All-both {ℓ} :
    {A : Type ℓ} (P Q R : A → Type 0)
    → ((a : A) → P a → Q a → R a)
    → (xs : List A) → All P xs
    → All Q xs
    → All R xs
All-both P Q R both [] h k = tt
All-both P Q R both (x ∷ xs) h k = (both x h.0 k.0, All-both P Q R both xs h.1 k.1)

pub Pairwise-both {ℓ} :
    {A : Type ℓ} (Q R S : A → A → Type 0)
    → ((a b : A) → Q a b → R a b → S a b)
    → (xs : List A) → Pairwise Q xs
    → Pairwise R xs
    → Pairwise S xs
Pairwise-both Q R S both [] h k = tt
Pairwise-both Q R S both (x ∷ xs) h k =
    (All-both (Q x) (R x) (S x) (both x) xs h.0 k.0, Pairwise-both Q R S both xs h.1 k.1)

module _ {ℓ} {A : Type ℓ} (R : A → A → Type 0) where
  All-append : (P : A → Type 0) (xs ys : List A) → All P xs → All P ys → All P (xs ++ ys)
  All-append P [] ys h k = k
  All-append P (x ∷ xs) ys h k = (h.0, All-append P xs ys h.1 k)

  pub Pairwise-append :
      (xs ys : List A)
      → Pairwise R xs
      → Pairwise R ys
      → All (λ x. All (λ y. R x y) ys) xs
      → Pairwise R (xs ++ ys)
  Pairwise-append [] ys h k c = k
  Pairwise-append (x ∷ xs) ys h k c =
      (All-append (λ y. R x y) xs ys h.0 c.0, Pairwise-append xs ys h.1 k c.1)

  pub Pairwise-keep_if :
      (test : A → Bool) (xs : List A) → Pairwise R xs → Pairwise R (keep_if test xs)
  unfolding keep_if
  Pairwise-keep_if test [] h = tt
  Pairwise-keep_if test (x ∷ xs) h = elim (Bool-cases (test x)) [
    | inl kept ↦ rw kept ((All-keep_if (λ y. R x y) test xs h.0, Pairwise-keep_if test xs h.1))
    | inr left ↦ rw left (Pairwise-keep_if test xs h.1)
  ]
