-- ===== src/Pep440/Numbers.antt =====
-- The comparison of digit strings in internal/report/pep440/pep440.go, and their values.
use lopper.Prelude.{
  ap, ℕ, zero, suc, ◌+◌, ◌-◌, ◌*◌, ◌≤◌, ◌<◌, ◌≡◌, ◌≢◌, refl, true, [], ◌∷◌, arith, compare, length,
  all,
}
use native.Mathlib.Nat.{suc_inj, mul-le-mul_right}
use lopper.Text.{Str, str_eq_iff, compare_str}
use lopper.Regex.{is_digit}
use lopper.Pep440.Version.{trim_zeros, normalized_number}
use lopper.Pep440.Compare.{compare_ints, compare_numbers}

-- A text of decimal digits, and the number that it writes.
abbrev pub IsDigits : Str → Type 0
IsDigits s = all is_digit s ≡ true

abbrev pub weight : ℕ → ℕ
weight zero = 1
weight (suc n) = 10 * weight n

unfoldable pub value : Str → ℕ
value [] = 0
value (c ∷ s) = (c - b'0') * weight (length s) + value s

weight_mono : (m n : ℕ) → m ≤ n → weight m ≤ weight n
weight_mono zero zero h = omega arith
weight_mono zero (suc n) h = omega (arith, weight_mono zero n (omega arith))
weight_mono (suc m) zero h = absurd (omega arith)
weight_mono (suc m) (suc n) h = omega (arith, weight_mono m n (omega arith))

digit_times : (c w : ℕ) → c ≤ b'9' → (c - b'0') * w ≤ 9 * w
digit_times c w h = mul-le-mul_right w (omega arith)

value-lt-weight : (s : Str) → IsDigits s → value s < weight (length s)
unfolding value is_digit
value-lt-weight [] h = omega arith
value-lt-weight (c ∷ s) h = ground (arith, value-lt-weight s, digit_times c (weight (length s)))

weight-le-value : (c : ℕ) (s : Str) → b'0' < c → weight (length s) ≤ value (c ∷ s)
unfolding value
weight-le-value c s h =
    omega (arith, mul-le-mul_right {m = 1} {n = c - b'0'} (weight (length s)) (omega arith))

-- A greater first digit makes a greater number of the same length.
value-lt_of_digit :
    (c d : ℕ) (s t : Str)
    → IsDigits s
    → b'0' ≤ c
    → c < d
    → length s ≡ length t
    → value (c ∷ s) < value (d ∷ t)
unfolding value
value-lt_of_digit c d s t h lo less same =
    let below = value-lt-weight s h in
    let step =
      mul-le-mul_right {m = suc (c - b'0')} {n = d - b'0'} (weight (length s)) (omega arith) in
    rw (← same) (omega (arith, below, step))

compare_str-value :
    (s t : Str)
    → IsDigits s
    → IsDigits t
    → length s ≡ length t
    → compare_str s t ≡ compare (value s) (value t)
unfolding compare_str is_digit value
compare_str-value [] [] h k e = refl
compare_str-value [] (d ∷ t) h k e = absurd (omega arith)
compare_str-value (c ∷ s) [] h k e = absurd (omega arith)
compare_str-value (c ∷ s) (d ∷ t) h k e = ground (
  arith,
  compare_str-value s t,
  value-lt_of_digit c d s t,
  value-lt_of_digit d c t s,
  ap weight (suc_inj e),
)

-- Digits with no zero in front, but for the number zero itself.
abbrev IsCanonical : Str → Type 0
IsCanonical [] = ⊥
IsCanonical (c ∷ []) = is_digit c ≡ true
IsCanonical (c ∷ d ∷ s) = (b'0' < c) × IsDigits (c ∷ d ∷ s)

IsCanonical-IsDigits : (s : Str) → IsCanonical s → IsDigits s
IsCanonical-IsDigits (c ∷ []) h = ground arith
IsCanonical-IsDigits (c ∷ d ∷ s) h = h.1
IsCanonical-IsDigits [] h = absurd h

-- A shorter canonical text writes a smaller number.
value-lt_of_shorter :
    (s t : Str) → IsCanonical s → IsCanonical t → length s < length t → value s < value t
value-lt_of_shorter s [] h k less = absurd k
value-lt_of_shorter [] t h k less = absurd h
value-lt_of_shorter (c ∷ s) (d ∷ []) h k less = absurd (omega arith)
value-lt_of_shorter (c ∷ s) (d ∷ e ∷ t) h k less = omega (
  arith,
  value-lt-weight (c ∷ s) (IsCanonical-IsDigits (c ∷ s) h),
  weight_mono (length (c ∷ s)) (length (e ∷ t)) (omega arith),
  weight-le-value d (e ∷ t) k.0,
)

compare_canonical :
    (s t : Str) → IsCanonical s → IsCanonical t → compare_numbers s t ≡ compare (value s) (value t)
unfolding compare_numbers compare_ints
compare_canonical s t h k = ground (
  arith,
  compare_str-value s t (IsCanonical-IsDigits s h) (IsCanonical-IsDigits t k),
  value-lt_of_shorter s t h k,
  value-lt_of_shorter t s k h,
)

value-trim_zeros : (s : Str) → value (trim_zeros s) ≡ value s
unfolding value trim_zeros
value-trim_zeros [] = refl
value-trim_zeros (c ∷ s) = ground (arith, value-trim_zeros s)

-- What is left of a digit string is empty or canonical.
trim_zeros-IsCanonical : (s : Str) → IsDigits s → trim_zeros s ≢ [] → IsCanonical (trim_zeros s)
unfolding trim_zeros is_digit
trim_zeros-IsCanonical [] h k = absurd (k refl)
trim_zeros-IsCanonical (c ∷ []) h k = ground arith
trim_zeros-IsCanonical (c ∷ d ∷ s) h k = ground (arith, trim_zeros-IsCanonical (d ∷ s))

normalized_number-IsCanonical : (s : Str) → s ≢ [] → IsDigits s → IsCanonical (normalized_number s)
unfolding normalized_number is_digit
normalized_number-IsCanonical s h k =
    ground (arith, trim_zeros-IsCanonical s k, str_eq_iff (trim_zeros s) [], str_eq_iff s [])

value-normalized_number : (s : Str) → value (normalized_number s) ≡ value s
unfolding normalized_number value
value-normalized_number s = ground (arith, value-trim_zeros s, str_eq_iff (trim_zeros s) [])

-- Two non-empty digit strings, normalized, compare as the numbers that they write, however long
-- they are and with however many zeros in front.
pub compare_numbers-value :
    (s t : Str)
    → s ≢ []
    → t ≢ []
    → IsDigits s
    → IsDigits t
    → compare_numbers (normalized_number s) (normalized_number t) ≡ compare (value s) (value t)
compare_numbers-value s t h k hd kd =
    let below =
      compare_canonical (normalized_number s) (normalized_number t)
        (normalized_number-IsCanonical s h hd) (normalized_number-IsCanonical t k kd) in
    cc (below, value-normalized_number s, value-normalized_number t)
