-- ===== src/Tests/Masks.antt =====
-- Blanked sources of internal/lang.
use lopper.Prelude.{◌≡◌, refl, some}
use lopper.Text.{codes}
use lopper.Mask.Bytes.{Bytes, Masks, byte_at, line_length, blanks}
use lopper.Mask.Loop.{each_index}
use lopper.Mask.Swift
use lopper.Mask.Swift.{blank_strings_and_comments, blank_comments}
use lopper.Mask.SwiftLayout.{blank_swift-masked}
use lopper.Mask.Elixir
use lopper.Mask.Sigils
use lopper.Mask.Sigils.{mask_source}
use lopper.Mask.ElixirLayout.{mask_source-masked}

-- `let a = "x" // y`, and a block comment of two lines.
abbrev swift_source : Bytes
swift_source = codes "a=\"x\"//y\nb/*\n*/#\"c\"#"

blanked : blank_strings_and_comments swift_source ≡ some (codes "a=      \nb  \n       ")
unfolding blank_strings_and_comments Swift.blank_loop Swift.round Swift.code_round
    Swift.starts_line_comment Swift.starts_block_comment Swift.opening_round
    Swift.detect_string_start Swift.after_hashes Swift.string_round Swift.matches_delimiter
    Swift.repeats Swift.delimiter_length line_length Swift.block_comment_round
    Swift.ends_block_comment blanks
blanked = refl

-- An escaped quote closes the string, and what follows is code.
escaped_quote : blank_strings_and_comments (codes "\"a\\\"b\"") ≡ some (codes "    b ")
unfolding blank_strings_and_comments Swift.blank_loop Swift.round Swift.code_round
    Swift.starts_line_comment Swift.starts_block_comment Swift.opening_round
    Swift.detect_string_start Swift.after_hashes Swift.string_round Swift.matches_delimiter
    Swift.repeats Swift.delimiter_length line_length Swift.block_comment_round
    Swift.ends_block_comment blanks
escaped_quote = refl

blank_swift-masked_example :
    ((out : Bytes) × (blank_strings_and_comments swift_source ≡ some out) × Masks swift_source out)
    × ((out : Bytes) × (blank_comments swift_source ≡ some out) × Masks swift_source out)
blank_swift-masked_example = blank_swift-masked swift_source

-- A comment, a string, a sigil and a character literal.
abbrev elixir_source : Bytes
elixir_source = codes "f ~r/a/ ?# # c\n\"b\""

masked : mask_source elixir_source ≡ some (codes "f       ?#    \n   ")
unfolding mask_source Elixir.sanitize_source each_index Elixir.sanitize_round Elixir.sanitize_at
    Elixir.start_region Elixir.is_triple_quote byte_at Elixir.is_comment_start
    Elixir.is_character_literal_hash Elixir.is_literal_from Elixir.is_character_literal_continuation
    Elixir.is_identifier_byte Elixir.comment_byte Elixir.quoted_byte Elixir.quoted_state
    Elixir.mask_byte Elixir.mask_range Elixir.heredoc_byte Sigils.mask_sigils Sigils.sigil_round
    Sigils.mask_found Sigils.sigil_end Sigils.sigil_delimiter Sigils.is_sigil_letter
    Sigils.find_sigil_end Sigils.sigil_end_from Sigils.sigil_byte Sigils.comment_round line_length
masked = refl

-- The quote of a sigil opens a string that goes on behind the sigil.
sigil_quote : mask_source (codes "~r/\"/ f") ≡ some (codes "       ")
unfolding mask_source Elixir.sanitize_source each_index Elixir.sanitize_round Elixir.sanitize_at
    Elixir.start_region Elixir.is_triple_quote byte_at Elixir.is_comment_start
    Elixir.is_character_literal_hash Elixir.is_literal_from Elixir.is_character_literal_continuation
    Elixir.is_identifier_byte Elixir.comment_byte Elixir.quoted_byte Elixir.quoted_state
    Elixir.mask_byte Elixir.mask_range Elixir.heredoc_byte Sigils.mask_sigils Sigils.sigil_round
    Sigils.mask_found Sigils.sigil_end Sigils.sigil_delimiter Sigils.is_sigil_letter
    Sigils.find_sigil_end Sigils.sigil_end_from Sigils.sigil_byte Sigils.comment_round line_length
sigil_quote = refl

mask_source-masked_example :
    (out : Bytes) × (mask_source elixir_source ≡ some out) × Masks elixir_source out
mask_source-masked_example = mask_source-masked elixir_source
