-- ===== src/Regex.antt =====
-- The part of Go's package regexp that the program's patterns use: greedy, leftmost-first matching
-- of a pattern that is anchored at both ends, with the texts of its groups.
use lopper.Prelude.{
  ℕ, zero, suc, ◌-◌, Bool, true, false, not, ◌&&◌, ◌||◌, List, [], ◌∷◌, Option, none, some, length,
  take, leb, ◌==◌, if◌then◌else◌,
}
use lopper.Text.{Str, lower_rune}

pub data Regex : Type 0 where
  empty : Regex
  one_of : (ℕ → Bool) → Regex
  seq alt : Regex → Regex → Regex
  opt star : Regex → Regex
  group : ℕ → Regex → Regex

abbrev pub Captures : Type 0
Captures = List (ℕ × Str)

abbrev pub Next : Type 0
Next = Str → Captures → Option Captures

-- One more round if the whole match succeeds with it, else none. A round takes a character, so as
-- many rounds as there are characters are enough.
repeat : ℕ → (Next → Next) → Next → Next
repeat zero round next s found = next s found
repeat (suc n) round next s found = elim (round (repeat n round next) s found) [
  | some result ↦ some result
  | none ↦ next s found
]

run : Regex → Next → Next
run empty next s found = next s found
run (one_of accepts) next [] found = none
run (one_of accepts) next (c ∷ s) found = elim (accepts c) [ true ↦ next s found | false ↦ none ]
run (seq first second) next s found = run first (run second next) s found
run (alt first second) next s found = elim (run first next s found) [
  | some result ↦ some result
  | none ↦ run second next s found
]
run (opt body) next s found = elim (run body next s found) [
  | some result ↦ some result
  | none ↦ next s found
]
run (star body) next s found = repeat (length s) (run body) next s found
run (group i body) next s found =
    run body (λ rest more. next rest ((i, take (length s - length rest) s) ∷ more)) s found

abbrev at_end : Next
at_end [] found = some found
at_end (c ∷ s) found = none

-- `FindStringSubmatch` of a pattern `^…$`.
unfoldable pub find_submatch : Regex → Str → Option Captures
unfolding run repeat
find_submatch pattern s = run pattern at_end s []

-- `matches[i]`: the empty text where the group took no part.
unfoldable pub submatch : ℕ → Captures → Str
submatch i [] = []
submatch i ((j, text) ∷ found) = if i == j then text else submatch i found

-- Patterns.
abbrev pub plus : Regex → Regex
plus r = seq r (star r)

abbrev pub char : ℕ → Regex
char c = one_of (λ x. x == c)

unfoldable pub is_digit : ℕ → Bool
is_digit c = leb b'0' c && leb c b'9'

abbrev pub digit : Regex
digit = one_of is_digit

-- A letter under `(?i)`: either case, and the two other code points that fold to ASCII letters.
unfoldable pub fold_eq : ℕ → ℕ → Bool
unfolding lower_rune
fold_eq c x = lower_rune x == c && not (x == 0x130) || c == b's' && x == 0x17f

abbrev pub letters : Str → Regex
letters [] = empty
letters (c ∷ s) = seq (one_of (fold_eq c)) (letters s)

-- `(a|b|…)` over words.
abbrev pub words : List Str → Regex
words [] = one_of (λ x. false)
words (w ∷ []) = letters w
words (w ∷ v ∷ ws) = alt (letters w) (words (v ∷ ws))

-- `[a-z0-9]` under `(?i)`.
unfoldable pub is_alphanumeric : ℕ → Bool
unfolding lower_rune is_digit
is_alphanumeric c =
    leb b'a' (lower_rune c) && leb (lower_rune c) b'z' && not (c == 0x130)
    || is_digit c
    || c == 0x17f
