-- ===== src/Text/Trim.antt =====
-- `strings.TrimSpace` leaves nothing for a second call.
use lopper.Prelude.{ℕ, ◌≡◌, refl, ap, ◌∙◌, false, [], ◌∷◌, Bool-cases, inl, inr}
use lopper.Text.{Str, is_space, trim_left, keep_if_needed, trim_right, trim_space}

-- No space in front.
abbrev IsClean : Str → Type 0
IsClean [] = Unit
IsClean (c ∷ s) = is_space c ≡ false

trim_left-IsClean : (s : Str) → IsClean (trim_left s)
unfolding trim_left
trim_left-IsClean [] = tt
trim_left-IsClean (c ∷ s) = elim (Bool-cases (is_space c)) [
  | inl h ↦ rw h (trim_left-IsClean s)
  | inr h ↦ rw h h
]

trim_left_of_IsClean : (s : Str) → IsClean s → trim_left s ≡ s
unfolding trim_left
trim_left_of_IsClean [] h = refl
trim_left_of_IsClean (c ∷ s) h = rw h

keep_if_needed-IsClean : (c : ℕ) (s : Str) → is_space c ≡ false → IsClean (keep_if_needed c s)
unfolding keep_if_needed
keep_if_needed-IsClean c [] h = rw h h
keep_if_needed-IsClean c (d ∷ s) h = h

trim_right-IsClean : (s : Str) → IsClean s → IsClean (trim_right s)
unfolding trim_right
trim_right-IsClean [] h = tt
trim_right-IsClean (c ∷ s) h = keep_if_needed-IsClean c (trim_right s) h

trim_right-keep_if_needed :
    (c : ℕ) (s : Str) → trim_right s ≡ s → trim_right (keep_if_needed c s) ≡ keep_if_needed c s
unfolding trim_right keep_if_needed
trim_right-keep_if_needed c [] h = elim (Bool-cases (is_space c)) [
  | inl space ↦ rw space
  | inr other ↦ rw other (rw other)
]
trim_right-keep_if_needed c (d ∷ s) h = ap (keep_if_needed c) h

trim_right_idem : (s : Str) → trim_right (trim_right s) ≡ trim_right s
unfolding trim_right
trim_right_idem [] = refl
trim_right_idem (c ∷ s) = trim_right-keep_if_needed c (trim_right s) (trim_right_idem s)

-- Trimming a trimmed text changes nothing.
pub trim_space_idem : (s : Str) → trim_space (trim_space s) ≡ trim_space s
unfolding trim_space
trim_space_idem s =
    ap trim_right (
      trim_left_of_IsClean (trim_right (trim_left s))
        (trim_right-IsClean (trim_left s) (trim_left-IsClean s)))
    ∙ trim_right_idem (trim_left s)
