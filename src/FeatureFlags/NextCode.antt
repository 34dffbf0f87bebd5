-- ===== src/FeatureFlags/NextCode.antt =====
-- The codes that `NextCode` of internal/featureflags/registry.go hands out, and their digits.
use lopper.Prelude.{
  ℕ, ◌+◌, ◌*◌, ◌≤◌, ◌<◌, ◌≡◌, ◌≢◌, ◌∙◌, ap, subst, ◌/◌, ◌%◌, false, List, [], ◌∷◌, ◌++◌, arith, All,
  ltb, if◌then◌else◌,
}
use lopper.Prelude.Result.{ok, Result-cases}
use lopper.Prelude.{inl, inr}
use lopper.Text.{Str, str_eq, has_prefix, byte_length}
use lopper.FeatureFlags.Flag.{
  Flag, feature_code_number, feature_code_prefix, suffix_number, max_feature_code,
}
use lopper.FeatureFlags.Registry.{Registry, highest_code, four_digits, next_code}

-- A code whose number is at most a bound.
abbrev IsNumbered : ℕ → Flag → Type 0
IsNumbered m flag = (n : ℕ) × (feature_code_number flag.code ≡ ok n) × (n ≤ m)

highest_step :
    (h : ℕ) (flag : Flag) (flags : List Flag) {m : ℕ}
    → highest_code h (flag ∷ flags) ≡ ok m
    → (n : ℕ) × (feature_code_number flag.code ≡ ok n)
      × (highest_code (if ltb h n then n else h) flags ≡ ok m)
unfolding highest_code
highest_step h flag flags e = elim (Result-cases (feature_code_number flag.code)) [
  | inl (n, p) ↦ (n, p, ground arith)
  | inr (x, p) ↦ absurd (ground arith)
]

highest_code_lem :
    (h : ℕ) (flags : List Flag) {m : ℕ}
    → highest_code h flags ≡ ok m
    → (h ≤ m) × All (IsNumbered m) flags
unfolding highest_code
highest_code_lem h [] e = (ground arith, tt)
highest_code_lem h (flag ∷ flags) {m} e =
    let (n, p, rest) = highest_step h flag flags e in
    let (up, later) = highest_code_lem (if ltb h n then n else h) flags rest in
    (ground arith, ((n, p, ground arith), later))

digit_in_range : (d : ℕ) → d < 10 → (ltb (b'0' + d) b'0' ≡ false) × (ltb b'9' (b'0' + d) ≡ false)
digit_in_range d h = (ground arith, ground arith)

number_of_digits :
    (a b c d : ℕ)
    → a < 10
    → b < 10
    → c < 10
    → d < 10
    → feature_code_number
        (feature_code_prefix ++ (b'0' + a) ∷ (b'0' + b) ∷ (b'0' + c) ∷ (b'0' + d) ∷ [])
      ≡ ok (((a * 10 + b) * 10 + c) * 10 + d)
unfolding feature_code_number suffix_number str_eq has_prefix byte_length
number_of_digits a b c d ha hb hc hd = ground arith

-- The code of a number below 10000 reads back as that number.
pub number_of_code :
    (n : ℕ) → n < 10000 → feature_code_number (feature_code_prefix ++ four_digits n) ≡ ok n
unfolding four_digits
number_of_code n h =
    number_of_digits (n / 1000 % 10) (n / 100 % 10) (n / 10 % 10) (n % 10) (omega arith)
      (omega arith) (omega arith) (omega arith)
    ∙ ap ok (omega arith)

not_numbered :
    (m : ℕ) (c : Str) (flags : List Flag)
    → feature_code_number c ≡ ok (m + 1)
    → All (IsNumbered m) flags
    → All (λ flag. flag.code ≢ c) flags
not_numbered m c [] e h = tt
not_numbered m c (flag ∷ flags) e h = (
  (λ same. let (n, p, bound) = h.0 in let q = ap feature_code_number same in ground arith),
  not_numbered m c flags e h.1,
)

-- A code that `NextCode` returns is a valid feature code, and no flag of the registry has it.
pub next_code-fresh :
    (r : Registry) {c : Str}
    → next_code r ≡ ok c
    → ((n : ℕ) × (feature_code_number c ≡ ok n)) × All (λ flag. flag.code ≢ c) r.flags
unfolding next_code
next_code-fresh r {c} h = elim (Result-cases (highest_code 0 r.flags)) [
  | inr (e, p) ↦ absurd (ground arith)
  | inl (m, p) ↦
      let room : m < max_feature_code = ground arith in
      let code : feature_code_prefix ++ four_digits (m + 1) ≡ c = ground arith in
      let number =
        subst (λ s. feature_code_number s ≡ ok (m + 1)) code
          (number_of_code (m + 1) (omega arith)) in
      ((m + 1, number), not_numbered m c r.flags number (highest_code_lem 0 r.flags p).1)
]
