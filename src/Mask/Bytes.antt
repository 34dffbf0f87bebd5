-- ===== src/Mask/Bytes.antt =====
-- Bytes of a source text by their index, and what a blanked text keeps of it. A read beyond the end,
-- which the code's tests exclude, gives 0.
use lopper.Prelude.{ℕ, zero, suc, ◌≡◌, refl, inl, ◌≢◌, ◌⊎◌, List, [], ◌∷◌, ◌==◌, if◌then◌else◌}

abbrev pub Bytes : Type 0
Bytes = List ℕ

abbrev pub newline : ℕ
newline = 10

abbrev pub blank : ℕ
blank = 32

unfoldable pub byte_at : Bytes → ℕ → ℕ
byte_at [] i = 0
byte_at (c ∷ s) zero = c
byte_at (c ∷ s) (suc i) = byte_at s i

-- Blanks in place of n bytes.
unfoldable pub blanks : ℕ → Bytes
blanks zero = []
blanks (suc n) = blank ∷ blanks n

-- The bytes before the next newline.
unfoldable pub line_length : Bytes → ℕ
line_length [] = 0
line_length (c ∷ s) = let rest = line_length s in if c == newline then 0 else suc rest

-- A byte is kept, or is a blank where the source has no newline.
abbrev pub Covers : ℕ → ℕ → Type 0
Covers source shown = (shown ≡ source) ⊎ ((shown ≡ blank) × (source ≢ newline))

-- Byte by byte: the texts are of one length and have their newlines at the same places.
abbrev pub Masks : Bytes → Bytes → Type 0
Masks [] [] = Unit {0}
Masks [] (d ∷ t) = ⊥
Masks (c ∷ s) [] = ⊥
Masks (c ∷ s) (d ∷ t) = Covers c d × Masks s t

pub Masks-self : (s : Bytes) → Masks s s
Masks-self [] = tt
Masks-self (c ∷ s) = (inl refl, Masks-self s)
