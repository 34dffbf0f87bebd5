-- ===== src/Merge/Digits.antt =====
-- The keys of internal/analysis/merge.go that hold a line number, which `%d` prints.
use lopper.Prelude.{
  ℕ, zero, suc, ◌+◌, ◌-◌, ◌*◌, ◌/◌, ◌%◌, ◌≤◌, ◌≡◌, refl, ◌∙◌, sym, ap, false, [], ◌∷◌, ◌++◌, arith,
  Bool-cases, inl, inr, ltb, ◌==◌, any, length, length-append, append_assoc,
}
use lopper.Prelude.Counts.{any-append}
use native.Mathlib.Nat.{mul_left_comm}
use native.Mathlib.Numerals.{add-one}
use lopper.Text.{Str}
use lopper.Pep440.Numbers.{value, weight}
use lopper.Merge.Advice.{decimal, decimal_from}

value-snoc : (s : Str) (d : ℕ) → value (s ++ d ∷ []) ≡ 10 * value s + (d - b'0')
unfolding value
value-snoc [] d = omega arith
value-snoc (c ∷ s) d =
    rw (length-append s (d ∷ []), add-one)
      (omega (arith, mul_left_comm (c - b'0') 10 (weight (length s)), value-snoc s d))

-- A number of rounds not below the number is enough for all its digits.
value-decimal_from : (rounds n : ℕ) → n ≤ rounds → value (decimal_from rounds n) ≡ n
unfolding decimal_from value
value-decimal_from zero n h = omega arith
value-decimal_from (suc rounds) n h = elim (Bool-cases (ltb n 10)) [
  | inl few ↦ rw (few, decimal_from) (ground arith)
  | inr more ↦
      rw (more, decimal_from)
        (value-snoc (decimal_from rounds (n / 10)) (b'0' + n % 10)
          ∙ omega (arith, value-decimal_from rounds (n / 10) (ground arith)))
]

-- The digits of a number write it, so two numbers have different digits.
decimal-injective : (m n : ℕ) → decimal m ≡ decimal n → m ≡ n
unfolding decimal
decimal-injective m n h =
    sym (value-decimal_from m m (omega arith)) ∙ ap value h ∙ value-decimal_from n n (omega arith)

-- No character of a text is the one that the keys separate their parts with.
abbrev pub IsPlain : Str → Type 0
IsPlain s = any (λ c. c == 0) s ≡ false

decimal_from-IsPlain : (rounds n : ℕ) → IsPlain (decimal_from rounds n)
unfolding decimal_from
decimal_from-IsPlain zero n = ground arith
decimal_from-IsPlain (suc rounds) n = elim (Bool-cases (ltb n 10)) [
  | inl few ↦ rw (few, decimal_from) (ground arith)
  | inr more ↦
      rw (more, decimal_from)
        (any-append (λ c. c == 0) (decimal_from rounds (n / 10)) ((b'0' + n % 10) ∷ [])
          ∙ ground (arith, decimal_from-IsPlain rounds (n / 10)))
]

-- The first separator ends the first part.
cut : (a b s t : Str) → IsPlain a → IsPlain b → a ++ (0 ∷ s) ≡ b ++ (0 ∷ t) → (a ≡ b) × (s ≡ t)
cut [] [] s t p q h = (refl, ground arith)
cut [] (d ∷ b) s t p q h = absurd (ground arith)
cut (c ∷ a) [] s t p q h = absurd (ground arith)
cut (c ∷ a) (d ∷ b) s t p q h =
    let rest = cut a b s t (ground arith) (ground arith) (ground arith) in
    (ground (arith, rest.0), rest.1)

-- The text that the keys of codemods are: a file, the digits of a line, an import and one more text.
abbrev pub numbered_key : Str → ℕ → Str → Str → Str
numbered_key file line name last = file ++ 0 ∷ decimal line ++ 0 ∷ name ++ 0 ∷ last

-- Such keys of plain files and imports differ where one of their parts does.
pub numbered_key-injective :
    (file file' : Str) (line line' : ℕ) (name name' last last' : Str)
    → IsPlain file
    → IsPlain file'
    → IsPlain name
    → IsPlain name'
    → numbered_key file line name last ≡ numbered_key file' line' name' last'
    → (file ≡ file') × (line ≡ line') × (name ≡ name') × (last ≡ last')
unfolding decimal
numbered_key-injective file file' line line' name name' last last' p p' q q' h =
    let files = cut file file' _ _ p p' (simp append_assoc at h) in
    let lines =
      cut (decimal line) (decimal line') _ _ (decimal_from-IsPlain line line)
        (decimal_from-IsPlain line' line') files.1 in
    let names = cut name name' _ _ q q' lines.1 in
    (files.0, decimal-injective line line' lines.0, names.0, names.1)
