-- ===== src/Mask/Swift.antt =====
-- internal/lang/swift/source_sanitizer.go. The bytes from an index on stand for the text and the
-- index, since the scans only look ahead; what the builder is given stands with the bytes consumed.
use lopper.Prelude.{
  ℕ, zero, suc, ◌+◌, ◌-◌, Bool, true, false, not, ◌&&◌, [], ◌∷◌, ◌++◌, Option, none, some, ltb,
  take, drop, length, ◌==◌, if◌then◌else◌,
}
use lopper.Mask.Bytes.{Bytes, newline, blank, blanks, line_length}

-- `swiftStringScanState`.
pub record ScanState : Type 0 where
  pub in_string : Bool
  pub multiline : Bool
  pub raw_hash_count : ℕ
  pub escaped : Bool
  pub block_depth : ℕ

abbrev pub start : ScanState
start = record {
  in_string = false;
  multiline = false;
  raw_hash_count = 0;
  escaped = false;
  block_depth = 0;
}

-- What one round writes, how many bytes it consumes, and the state after it.
pub record Round : Type 0 where
  pub written : Bytes
  pub consumed : ℕ
  pub state : ScanState

abbrev pub starts_with : ℕ → ℕ → Bytes → Bool
starts_with a b [] = false
starts_with a b (c ∷ []) = false
starts_with a b (c ∷ d ∷ s) = c == a && d == b

-- `startsSwiftLineComment`, `startsSwiftBlockComment` and `endsSwiftBlockComment`.
unfoldable pub starts_line_comment : Bytes → Bool
starts_line_comment s = starts_with b'/' b'/' s

unfoldable pub starts_block_comment : Bytes → Bool
starts_block_comment s = starts_with b'/' b'*' s

unfoldable pub ends_block_comment : Bytes → Bool
ends_block_comment s = starts_with b'*' b'/' s

-- `detectSwiftStringStart`, after a number of hashes: how many there are, how many bytes the opening
-- has, and whether the string has several lines.
pub record StringStart : Type 0 where
  pub hash_count : ℕ
  pub opening : ℕ
  pub is_multiline : Bool

abbrev pub quote : ℕ
quote = 34

unfoldable pub after_hashes : ℕ → Bytes → Option StringStart
after_hashes n [] = none
after_hashes n (c ∷ []) =
    if c == b'#'
    then none
    else if c == quote
    then some (record { hash_count = n; opening = n + 1; is_multiline = false })
    else none
after_hashes n (c ∷ d ∷ s) =
    let later = after_hashes (n + 1) (d ∷ s) in
    if c == b'#'
    then later
    else if not (c == quote)
    then none
    else if starts_with quote quote (d ∷ s)
    then some (record { hash_count = n; opening = n + 3; is_multiline = true })
    else some (record { hash_count = n; opening = n + 1; is_multiline = false })

unfoldable pub detect_string_start : Bytes → Option StringStart
detect_string_start s = after_hashes 0 s

-- A number of copies of a byte at the front.
unfoldable pub repeats : ℕ → ℕ → Bytes → Bool
repeats zero b s = true
repeats (suc n) b [] = false
repeats (suc n) b (c ∷ s) = c == b && repeats n b s

abbrev pub quote_count : Bool → ℕ
quote_count true = 3
quote_count false = 1

-- `swiftStringDelimiterLength`.
unfoldable pub delimiter_length : ScanState → ℕ
delimiter_length st = quote_count st.multiline + st.raw_hash_count

-- `matchesSwiftStringDelimiter`.
unfoldable pub matches_delimiter : ScanState → Bytes → Bool
matches_delimiter st s =
    repeats (quote_count st.multiline) quote s
    && repeats st.raw_hash_count b'#' (drop (quote_count st.multiline) s)

-- `resetSwiftStringScanState`.
abbrev pub reset : ScanState → ScanState
reset st = record st { in_string = false; multiline = false; raw_hash_count = 0; escaped = false }

-- A backslash that escapes what follows.
abbrev pub escapes : ScanState → ℕ → Bool
escapes st c = c == 92 && not st.multiline && (st.raw_hash_count == 0) && not st.escaped

-- The end of a string and its other bytes, in `consumeSwiftStringContent`, by what they show.
unfoldable pub string_round : (ℕ → Bytes → Bytes) → ScanState → ℕ → Bytes → Round
string_round show st c s =
    if matches_delimiter st (c ∷ s)
    then record {
      written = show (delimiter_length st) (c ∷ s);
      consumed = delimiter_length st;
      state = reset st;
    }
    else record {
      written = if c == newline then newline ∷ [] else show 1 (c ∷ s);
      consumed = 1;
      state = record st { escaped = escapes st c };
    }

abbrev pub hide : ℕ → Bytes → Bytes
hide n s = blanks n

-- `consumeSwiftStringContent` and `consumeSwiftStringContentPreservingContent`.
abbrev pub hidden_string_round : ScanState → ℕ → Bytes → Round
hidden_string_round st c s = string_round hide st c s

abbrev pub kept_string_round : ScanState → ℕ → Bytes → Round
kept_string_round st c s = string_round take st c s

-- `consumeSwiftBlockCommentContent`.
unfoldable pub block_comment_round : ScanState → ℕ → Bytes → Round
block_comment_round st c s =
    if starts_block_comment (c ∷ s)
    then record {
      written = blanks 2;
      consumed = 2;
      state = record st { block_depth = st.block_depth + 1 };
    }
    else if ends_block_comment (c ∷ s)
    then record {
      written = blanks 2;
      consumed = 2;
      state = record st { block_depth = st.block_depth - 1 };
    }
    else record {
      written = (if c == newline then newline else blank) ∷ [];
      consumed = 1;
      state = st;
    }

abbrev pub open_string : ScanState → StringStart → ScanState
open_string st found = record st {
  in_string = true;
  multiline = found.is_multiline;
  raw_hash_count = found.hash_count;
  escaped = false;
}

-- The end of `consumeSwiftCodeContent`: the opening of a string, or a byte of code.
unfoldable pub opening_round :
    (ℕ → Bytes → Bytes) → ScanState → ℕ → Bytes → Option StringStart → Round
opening_round show st c s none = record { written = c ∷ []; consumed = 1; state = st }
opening_round show st c s (some found) = record {
  written = show found.opening (c ∷ s);
  consumed = found.opening;
  state = open_string st found;
}

-- `consumeSwiftCodeContent`, and the same part of `blankSwiftCommentsPreservingStrings`, by what the
-- opening of a string shows. A line comment has two bytes at least.
unfoldable pub code_round : (ℕ → Bytes → Bytes) → ScanState → ℕ → Bytes → Round
code_round show st c s =
    if starts_line_comment (c ∷ s)
    then record {
      written = blanks (line_length (c ∷ s));
      consumed = line_length (c ∷ s);
      state = st;
    }
    else if starts_block_comment (c ∷ s)
    then record { written = blanks 2; consumed = 2; state = record st { block_depth = 1 } }
    else opening_round show st c s (detect_string_start (c ∷ s))

-- One round of the loop of either function.
unfoldable pub round : (ℕ → Bytes → Bytes) → ScanState → ℕ → Bytes → Round
round show st c s =
    if st.in_string
    then string_round show st c s
    else if ltb 0 st.block_depth
    then block_comment_round st c s
    else code_round show st c s

abbrev pub prepend : Bytes → Option Bytes → Option Bytes
prepend written none = none
prepend written (some rest) = some (written ++ rest)

-- The loop, for a number of rounds; none when they do not suffice.
unfoldable pub blank_loop : (ℕ → Bytes → Bytes) → ℕ → ScanState → Bytes → Option Bytes
blank_loop show fuel st [] = some []
blank_loop show zero st (c ∷ s) = none
blank_loop show (suc fuel) st (c ∷ s) =
    let r = round show st c s in
    prepend r.written (blank_loop show fuel r.state (drop r.consumed (c ∷ s)))

-- `blankSwiftStringsAndComments`.
unfoldable pub blank_strings_and_comments : Bytes → Option Bytes
blank_strings_and_comments content = blank_loop hide (length content) start content

-- `blankSwiftCommentsPreservingStrings`.
unfoldable pub blank_comments : Bytes → Option Bytes
blank_comments content = blank_loop take (length content) start content
