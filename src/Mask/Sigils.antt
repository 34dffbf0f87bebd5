-- ===== src/Mask/Sigils.antt =====
-- The sigils and the comments of `MaskSource` in internal/lang/elixir/source_mask.go.
use lopper.Prelude.{
  ℕ, suc, ◌+◌, ◌-◌, Bool, true, false, not, ◌&&◌, ◌||◌, [], ◌∷◌, Option, none, some, ltb, drop,
  length, ◌==◌, if◌then◌else◌,
}
use lopper.Mask.Bytes.{Bytes, byte_at, line_length}
use lopper.Mask.Loop.{each_index, ◌>>=◌}
use lopper.Mask.Elixir.{mask_range, sanitize_source, is_comment_start, between, backslash}

-- `isElixirSigilLetter`.
unfoldable pub is_sigil_letter : ℕ → Bool
is_sigil_letter c = between b'a' b'z' c || between b'A' b'Z' c

-- `elixirSigilDelimiter`: the closing byte, and whether it pairs with the opening one.
unfoldable pub sigil_delimiter : ℕ → Option (ℕ × Bool)
sigil_delimiter opening =
    if opening == b'('
    then some (b')', true)
    else if opening == b'['
    then some (b']', true)
    else if opening == b'{'
    then some (b'}', true)
    else if opening == b'<'
    then some (b'>', true)
    else if opening == b'/' || opening == b'|'
    then some (opening, false)
    else none

-- The depth and `escaped` after a byte, in the loop of `findElixirSigilEnd`.
unfoldable pub sigil_byte : ℕ → ℕ → Bool → ℕ → ℕ → Bool → ℕ × Bool
sigil_byte opening closing paired c depth escaped =
    if escaped
    then (depth, false)
    else if c == backslash
    then (depth, true)
    else if paired && c == opening
    then (depth + 1, false)
    else if c == closing
    then (depth - 1, false)
    else (depth, false)

-- The loop of `findElixirSigilEnd`, on the bytes from an index on: the depth falls to 0 only where a
-- closing byte ends the sigil.
unfoldable pub sigil_end_from : ℕ → ℕ → Bool → ℕ → Bool → ℕ → Bytes → ℕ
sigil_end_from opening closing paired depth escaped i [] = i - 1
sigil_end_from opening closing paired depth escaped i (c ∷ s) =
    let next = sigil_byte opening closing paired c depth escaped in
    let rest = sigil_end_from opening closing paired next.0 next.1 (suc i) s in
    if next.0 == 0 then i else rest

-- `findElixirSigilEnd`.
unfoldable pub find_sigil_end : Bytes → ℕ → ℕ → ℕ → Bool → ℕ
find_sigil_end content i opening closing paired =
    sigil_end_from opening closing paired 1 false (suc i) (drop (suc i) content)

-- `elixirSigilEnd`.
unfoldable pub sigil_end : Bytes → Bytes → ℕ → Option ℕ
sigil_end content masked i =
    if not (ltb (i + 2) (length content))
      || not (byte_at masked i == b'~')
      || not (is_sigil_letter (byte_at content (i + 1)))
      || not (byte_at masked (i + 2) == byte_at content (i + 2))
    then none
    else do
      (closing, paired) ← sigil_delimiter (byte_at content (i + 2))
      some (find_sigil_end content (i + 2) (byte_at content (i + 2)) closing paired)

-- One round of `maskElixirSigils`.
unfoldable pub mask_found : ℕ → Option ℕ → Bytes → Bytes × ℕ
mask_found i none masked = (masked, i)
mask_found i (some end) masked = (mask_range i (suc end - i) masked, end)

unfoldable pub sigil_round : Bytes → ℕ → Bytes → Bytes × ℕ
sigil_round content i masked = mask_found i (sigil_end content masked i) masked

-- `maskElixirSigils`.
unfoldable pub mask_sigils : Bytes → Bytes → Option Bytes
mask_sigils content masked =
    each_index (sigil_round content) (length content) (length content) 0 masked

-- One round of the loop of `MaskSource`.
unfoldable pub comment_round : Bytes → ℕ → Bytes → Bytes × ℕ
comment_round content i masked =
    let n = line_length (drop i content) in
    if is_comment_start content masked i then (mask_range i n masked, i + n) else (masked, i)

-- `MaskSource`.
unfoldable pub mask_source : Bytes → Option Bytes
mask_source content = do
  sanitized ← sanitize_source content
  masked ← mask_sigils content sanitized
  each_index (comment_round content) (length content) (length content) 0 masked
