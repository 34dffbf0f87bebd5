-- ===== src/Text/Split.antt =====
-- The functions of package strings that cut and join texts, for separators of one byte.
use lopper.Prelude.{
  ℕ, ◌-◌, Bool, List, [], ◌∷◌, ◌++◌, Option, none, some, zero, suc, ◌==◌, if◌then◌else◌,
}
use lopper.Text.{Str, rune_width}

-- The text before the first code point that passes the test, and the rest from there on.
unfoldable pub cut_at : (ℕ → Bool) → Str → Str × Str
cut_at test [] = ([], [])
cut_at test (c ∷ s) =
    let later = cut_at test s in if test c then ([], c ∷ s) else (c ∷ later.0, later.1)

-- The texts before and after the last occurrence of a separator.
unfoldable pub cut_last : ℕ → Str → Option (Str × Str)
cut_last separator [] = none
cut_last separator (c ∷ s) = elim (cut_last separator s) [
  | some (before, after) ↦ some (c ∷ before, after)
  | none ↦ if c == separator then some ([], s) else none
]

abbrev onto_first : ℕ → List Str → List Str
onto_first c [] = (c ∷ []) ∷ []
onto_first c (part ∷ parts) = (c ∷ part) ∷ parts

-- `strings.Split`.
unfoldable pub split : ℕ → Str → List Str
split separator [] = [] ∷ []
split separator (c ∷ s) =
    let parts = split separator s in if c == separator then [] ∷ parts else onto_first c parts

-- `strings.Join`.
unfoldable pub join : ℕ → List Str → Str
join separator [] = []
join separator (part ∷ []) = part
join separator (part ∷ next ∷ parts) = part ++ separator ∷ join separator (next ∷ parts)

-- `strings.ReplaceAll` of one code point.
unfoldable pub replace_all : ℕ → Str → Str → Str
replace_all old new [] = []
replace_all old new (c ∷ s) = (if c == old then new else c ∷ []) ++ replace_all old new s

-- `s[n:]` where a code point begins at the byte n.
unfoldable pub drop_bytes : ℕ → Str → Str
drop_bytes zero s = s
drop_bytes (suc n) [] = []
drop_bytes (suc n) (c ∷ s) = drop_bytes (suc n - rune_width c) s

-- `strings.TrimPrefix` of one code point.
abbrev pub trim_first : ℕ → Str → Str
trim_first prefix [] = []
trim_first prefix (c ∷ s) = if c == prefix then s else c ∷ s
