-- ===== src/Mask/Elixir.antt =====
-- internal/lang/elixir/source_mask.go. A buffer of the source's length is masked byte by byte; the
-- bytes of the source and of the buffer are read by their index, as in the code.
use lopper.Prelude.{
  ℕ, zero, suc, ◌+◌, ◌-◌, Bool, true, false, not, ◌&&◌, ◌||◌, [], ◌∷◌, Option, some, ltb, leb,
  length, ◌==◌, if◌then◌else◌,
}
use lopper.Mask.Bytes.{Bytes, newline, blank, byte_at}
use lopper.Mask.Loop.{each_index, ◌>>=◌}

-- `elixirSourceMaskState`.
pub record MaskState : Type 0 where
  pub in_single_quote : Bool
  pub in_double_quote : Bool
  pub in_single_heredoc : Bool
  pub in_double_heredoc : Bool
  pub in_comment : Bool
  pub escaped : Bool

abbrev pub no_region : MaskState
no_region = record {
  in_single_quote = false;
  in_double_quote = false;
  in_single_heredoc = false;
  in_double_heredoc = false;
  in_comment = false;
  escaped = false;
}

-- The buffer and the state that the loop of `sanitizeElixirSource` changes.
pub record Sanitizing : Type 0 where
  pub sanitized : Bytes
  pub state : MaskState

-- `maskElixirSourceByte`.
unfoldable pub mask_byte : ℕ → Bytes → Bytes
mask_byte i [] = []
mask_byte zero (c ∷ s) = (if c == newline then c else blank) ∷ s
mask_byte (suc i) (c ∷ s) = c ∷ mask_byte i s

-- A number of bytes from an index on.
unfoldable pub mask_range : ℕ → ℕ → Bytes → Bytes
mask_range i zero s = s
mask_range i (suc n) s = mask_range (suc i) n (mask_byte i s)

-- `isElixirTripleQuote`.
unfoldable pub is_triple_quote : Bytes → ℕ → ℕ → Bool
is_triple_quote content i q =
    ltb (i + 2) (length content)
    && byte_at content i == q
    && byte_at content (i + 1) == q
    && byte_at content (i + 2) == q

abbrev pub between : ℕ → ℕ → ℕ → Bool
between low high c = leb low c && leb c high

-- `isElixirIdentifierByte`.
unfoldable pub is_identifier_byte : ℕ → Bool
is_identifier_byte c =
    c == b'_' || between b'a' b'z' c || between b'A' b'Z' c || between b'0' b'9' c || leb 128 c

abbrev pub backslash : ℕ
backslash = 92

-- `isElixirCharacterLiteralContinuation`.
unfoldable pub is_character_literal_continuation : Bytes → ℕ → Bool
is_character_literal_continuation content i =
    if ltb 0 i && byte_at content (i - 1) == b'?'
    then i == 1 || not (is_identifier_byte (byte_at content (i - 2)))
    else ltb 1 i
      && byte_at content (i - 1) == backslash
      && byte_at content (i - 2) == b'?'
      && (i == 2 || not (is_identifier_byte (byte_at content (i - 3))))

-- `isElixirCharacterLiteralHash`, after `literalStart` is found.
unfoldable pub is_literal_from : Bytes → ℕ → Bool
is_literal_from content literal_start =
    byte_at content literal_start == b'?'
    && not (is_character_literal_continuation content literal_start)
    && (literal_start == 0 || not (is_identifier_byte (byte_at content (literal_start - 1))))

-- `isElixirCharacterLiteralHash`. A hash at the index 0 has no literal before it.
unfoldable pub is_character_literal_hash : Bytes → ℕ → Bool
is_character_literal_hash content zero = false
is_character_literal_hash content (suc i) =
    is_literal_from content (if ltb 0 i && byte_at content i == backslash then i - 1 else i)

-- `isElixirCommentStart`.
unfoldable pub is_comment_start : Bytes → Bytes → ℕ → Bool
is_comment_start content masked i =
    ltb i (length content)
    && byte_at content i == b'#'
    && byte_at masked i == b'#'
    && not (is_character_literal_hash content i)

-- What a step leaves, and by how many bytes it moves the index.
pub record Stepped : Type 0 where
  pub result : Sanitizing
  pub skipped : ℕ

abbrev pub stay : Bytes → MaskState → Stepped
stay buffer st = record { result = record { sanitized = buffer; state = st }; skipped = 0 }

abbrev pub leap : Bytes → MaskState → Stepped
leap buffer st = record { result = record { sanitized = buffer; state = st }; skipped = 2 }

-- `sanitizeElixirCommentByte`.
unfoldable pub comment_byte : Bytes → ℕ → Bytes → MaskState → Stepped
comment_byte content i buffer st =
    stay buffer (if byte_at content i == newline then record st { in_comment = false } else st)

abbrev pub double_quote : ℕ
double_quote = 34

abbrev pub single_quote : ℕ
single_quote = 39

-- `sanitizeElixirHeredocByte`.
unfoldable pub heredoc_byte : ℕ → Bytes → ℕ → Bytes → MaskState → Stepped
heredoc_byte q content i buffer st =
    if not (is_triple_quote content i q)
    then stay (mask_byte i buffer) st
    else leap (mask_byte (i + 2) (mask_byte (i + 1) (mask_byte i buffer))) (
        if q == double_quote
        then record st { in_double_heredoc = false }
        else record st { in_single_heredoc = false })

-- `sanitizeElixirQuotedByte`, the state after a byte.
unfoldable pub quoted_state : ℕ → ℕ → MaskState → MaskState
quoted_state q c st =
    if st.escaped
    then record st { escaped = false }
    else if c == backslash
    then record st { escaped = true }
    else if not (c == q)
    then st
    else if q == double_quote
    then record st { in_double_quote = false }
    else record st { in_single_quote = false }

-- `sanitizeElixirQuotedByte`.
unfoldable pub quoted_byte : ℕ → Bytes → ℕ → Bytes → MaskState → Stepped
quoted_byte q content i buffer st =
    stay (mask_byte i buffer) (quoted_state q (byte_at content i) st)

-- `startElixirSanitizedRegion`.
unfoldable pub start_region : Bytes → ℕ → Bytes → MaskState → Stepped
start_region content i buffer st =
    if is_triple_quote content i double_quote
    then leap (mask_byte (i + 2) (mask_byte (i + 1) (mask_byte i buffer)))
        (record st { in_double_heredoc = true })
    else if is_triple_quote content i single_quote
    then leap (mask_byte (i + 2) (mask_byte (i + 1) (mask_byte i buffer)))
        (record st { in_single_heredoc = true })
    else if byte_at content i == b'#'
    then stay buffer
        (if is_comment_start content buffer i then record st { in_comment = true } else st)
    else if byte_at content i == double_quote
    then stay (mask_byte i buffer) (record st { in_double_quote = true })
    else if byte_at content i == single_quote
    then stay (mask_byte i buffer) (record st { in_single_quote = true })
    else stay buffer st

-- `sanitizeElixirSourceAt`.
unfoldable pub sanitize_at : Bytes → ℕ → Bytes → MaskState → Stepped
sanitize_at content i buffer st =
    if st.in_comment
    then comment_byte content i buffer st
    else if st.in_double_heredoc
    then heredoc_byte double_quote content i buffer st
    else if st.in_single_heredoc
    then heredoc_byte single_quote content i buffer st
    else if st.in_double_quote
    then quoted_byte double_quote content i buffer st
    else if st.in_single_quote
    then quoted_byte single_quote content i buffer st
    else start_region content i buffer st

-- One round of `sanitizeElixirSource`.
unfoldable pub sanitize_round : Bytes → ℕ → Sanitizing → Sanitizing × ℕ
sanitize_round content i s =
    let step = sanitize_at content i s.sanitized s.state in (step.result, i + step.skipped)

-- `sanitizeElixirSource`.
unfoldable pub sanitize_source : Bytes → Option Bytes
sanitize_source content = do
  s ←
      each_index (sanitize_round content) (length content) (length content) 0
        (record { sanitized = content; state = no_region })
  some s.sanitized
