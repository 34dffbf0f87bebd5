-- ===== src/CsvSanitize.antt =====
-- internal/csvsanitize: cells of a CSV file that a spreadsheet would take for formulas.
use lopper.Prelude.{
  ℕ, ◌≡◌, refl, ap₂, ◌⊎◌, inr, Bool, true, false, ◌||◌, List, [], ◌∷◌, ◌++◌, arith, All, any, ◌==◌,
  if◌then◌else◌,
}
use lopper.Text.{Str, codes}

-- The cases of the `switch` in `EscapeLeadingFormula`; the first byte of a text is one of them
-- where its first code point is.
unfoldable pub is_formula_mark : ℕ → Bool
is_formula_mark c = c == b'=' || c == b'+' || c == b'-' || c == b'@' || c == 9 || c == 13

-- `EscapeLeadingFormula`.
unfoldable pub escape_leading_formula : Str → Str
escape_leading_formula [] = []
escape_leading_formula (c ∷ s) = if is_formula_mark c then 39 ∷ c ∷ s else c ∷ s

-- `EscapeLeadingFormulaRow`.
unfoldable pub escape_leading_formula_row : List Str → List Str
escape_leading_formula_row [] = []
escape_leading_formula_row (value ∷ values) =
    escape_leading_formula value ∷ escape_leading_formula_row values

-- What a spreadsheet takes for the start of a formula: one of four signs, a tab or a carriage return.
abbrev pub formula_starts : List ℕ
formula_starts = codes "=+-@" ++ 9 ∷ 13 ∷ []

abbrev pub is_formula : Str → Bool
is_formula [] = false
is_formula (c ∷ s) = any (λ start. start == c) formula_starts

-- A cell of which a formula is made a text by an apostrophe; any other cell stays.
abbrev pub IsEscaped : Str → Str → Type 0
IsEscaped value cell =
    (is_formula value ≡ true) × (cell ≡ 39 ∷ value) ⊎ (is_formula value ≡ false) × (cell ≡ value)

abbrev pub IsEscapedRow : List Str → List Str → Type 0
IsEscapedRow [] [] = Unit
IsEscapedRow (value ∷ values) (cell ∷ row) = IsEscaped value cell × IsEscapedRow values row
IsEscapedRow _ _ = ⊥

escape-IsEscaped : (value : Str) → IsEscaped value (escape_leading_formula value)
unfolding escape_leading_formula is_formula_mark
escape-IsEscaped [] = inr (refl, refl)
escape-IsEscaped (c ∷ s) = ground arith

escape-safe : (value : Str) → is_formula (escape_leading_formula value) ≡ false
unfolding escape_leading_formula is_formula_mark
escape-safe [] = refl
escape-safe (c ∷ s) = ground arith

escape-kept : (value : Str) → is_formula value ≡ false → escape_leading_formula value ≡ value
escape-kept value h = ground (arith, escape-IsEscaped value)

-- Escaping a row puts an apostrophe in front of each cell that starts with `=`, `+`, `-`, `@`, a tab
-- or a carriage return, and changes no other cell. So no cell of the escaped row starts with one of
-- these, and escaping it once more changes nothing.
pub escape_row-safe :
    (values : List Str)
    → let row = escape_leading_formula_row values in
      IsEscapedRow values row
      × All (λ cell. is_formula cell ≡ false) row
      × (escape_leading_formula_row row ≡ row)
unfolding escape_leading_formula_row
escape_row-safe [] = (tt, tt, refl)
escape_row-safe (value ∷ values) =
    let rest = escape_row-safe values in
    (
      (escape-IsEscaped value, rest.0),
      (escape-safe value, rest.1),
      ap₂ (λ a b. a ∷ b) (escape-kept _ (escape-safe value)) rest.2,
    )
