-- ===== src/Tests/Cells.antt =====
-- The theorem on internal/csvsanitize at a row of two cells.
use lopper.Prelude.{◌≡◌, false, List, [], ◌∷◌, All}
use lopper.Text.{Str, codes}
use lopper.CsvSanitize.{escape_leading_formula_row, is_formula, IsEscapedRow, escape_row-safe}

abbrev cells : List Str
cells = codes "=sum(A1:A2)" ∷ codes "dependency" ∷ []

escape_row-safe_example :
    IsEscapedRow cells (escape_leading_formula_row cells)
    × All (λ cell. is_formula cell ≡ false) (escape_leading_formula_row cells)
    × (escape_leading_formula_row (escape_leading_formula_row cells)
        ≡ escape_leading_formula_row cells)
escape_row-safe_example = escape_row-safe cells
