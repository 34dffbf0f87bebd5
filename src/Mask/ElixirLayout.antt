-- ===== src/Mask/ElixirLayout.antt =====
-- What `MaskSource` of internal/lang/elixir/source_mask.go keeps of a source's layout.
use lopper.Prelude.{
  ℕ, zero, suc, ◌+◌, ◌-◌, ◌≡◌, refl, Bool, true, false, not, [], ◌∷◌, Option, none, some, leb, drop,
  length, ◌==◌, if◌then◌else◌, arith, inl, inr, if_cases, Option-cases,
}
use lopper.Mask.Bytes.{Bytes, newline, blank, byte_at, Covers, Masks, line_length, Masks-self}
use lopper.Mask.Loop.{each_index-kept, bind-kept}
use lopper.Mask.Elixir.{
  MaskState, Stepped, is_comment_start, is_triple_quote, double_quote, single_quote, mask_byte,
  mask_range, comment_byte, heredoc_byte, quoted_byte, start_region, sanitize_at, sanitize_round,
  sanitize_source,
}
use lopper.Mask.Sigils.{
  sigil_delimiter, sigil_byte, sigil_end_from, find_sigil_end, sigil_end, mask_found, sigil_round,
  mask_sigils, comment_round, mask_source,
}

mask_byte-Masks : (i : ℕ) (s t : Bytes) → Masks s t → Masks s (mask_byte i t)
unfolding mask_byte
mask_byte-Masks i [] [] h = tt
mask_byte-Masks i [] (d ∷ t) h = elim h [ ]
mask_byte-Masks i (c ∷ s) [] h = elim h [ ]
mask_byte-Masks (suc i) (c ∷ s) (d ∷ t) h = (h.0, mask_byte-Masks i s t h.1)
mask_byte-Masks zero (c ∷ s) (d ∷ t) (shown, h) =
    (if_cases (Covers c) (d == newline) d blank (λ _. shown) (hidden shown), h)
  where
    hidden : Covers c d → d == newline ≡ false → Covers c blank
    hidden (inl e) p = inr (refl, ground arith)
    hidden (inr (_, e)) p = inr (refl, e)

mask_range-Masks : (i n : ℕ) (s t : Bytes) → Masks s t → Masks s (mask_range i n t)
unfolding mask_range
mask_range-Masks i zero s t h = h
mask_range-Masks i (suc n) s t h =
    mask_range-Masks (suc i) n s (mask_byte i t) (mask_byte-Masks i s t h)

-- The buffer after a step masks the source.
Keeps : Bytes → Stepped → Type 0
Keeps content r = Masks content r.result.sanitized

mask_three-Masks :
    (i : ℕ) (s t : Bytes)
    → Masks s t
    → Masks s (mask_byte (i + 2) (mask_byte (i + 1) (mask_byte i t)))
mask_three-Masks i s t h = mask_byte-Masks _ s _ (mask_byte-Masks _ s _ (mask_byte-Masks i s t h))

if-Keeps :
    (content : Bytes) (b : Bool) (x y : Stepped)
    → Keeps content x
    → Keeps content y
    → Keeps content (if b then x else y)
if-Keeps content true x y h k = h
if-Keeps content false x y h k = k

heredoc_byte-Keeps :
    (q : ℕ) (content : Bytes) (i : ℕ) (t : Bytes) (st : MaskState)
    → Masks content t
    → Keeps content (heredoc_byte q content i t st)
unfolding heredoc_byte Keeps
heredoc_byte-Keeps q content i t st h =
    if-Keeps content (not (is_triple_quote content i q)) _ _ (mask_byte-Masks i content t h)
      (mask_three-Masks i content t h)

start_region-Keeps :
    (content : Bytes) (i : ℕ) (t : Bytes) (st : MaskState)
    → Masks content t
    → Keeps content (start_region content i t st)
unfolding start_region Keeps
start_region-Keeps content i t st h =
    let c = byte_at content i in
    if-Keeps content (is_triple_quote content i double_quote) _ _ (mask_three-Masks i content t h) (
      if-Keeps content (is_triple_quote content i single_quote) _ _ (mask_three-Masks i content t h)
        (if-Keeps content (c == b'#') _ _ h (
          if-Keeps content (c == double_quote) _ _ (mask_byte-Masks i content t h)
            (if-Keeps content (c == single_quote) _ _ (mask_byte-Masks i content t h) h))))

sanitize_at-Keeps :
    (content : Bytes) (i : ℕ) (t : Bytes) (st : MaskState)
    → Masks content t
    → Keeps content (sanitize_at content i t st)
unfolding sanitize_at comment_byte quoted_byte Keeps
sanitize_at-Keeps content i t st h = if-Keeps content st.in_comment _ _ h (
    if-Keeps content st.in_double_heredoc _ _ (heredoc_byte-Keeps _ content i t st h) (
      if-Keeps content st.in_single_heredoc _ _ (heredoc_byte-Keeps _ content i t st h) (
        if-Keeps content st.in_double_quote _ _ (mask_byte-Masks i content t h) (
          if-Keeps content st.in_single_quote _ _ (mask_byte-Masks i content t h)
            (start_region-Keeps content i t st h)))))

sanitize_source-masked :
    (content : Bytes) → (out : Bytes) × (sanitize_source content ≡ some out) × Masks content out
unfolding sanitize_source sanitize_round Keeps
sanitize_source-masked content =
    bind-kept (λ s. Masks content s.sanitized) (Masks content) _ _
      (each_index-kept (λ s. Masks content s.sanitized) (sanitize_round content) (length content)
        (λ i s h. (sanitize_at-Keeps content i s.sanitized s.state h, ground arith))
        (length content) 0 _ (ground arith) (Masks-self content))
      (λ s h. (s.sanitized, refl, h))

sigil_end_from-ahead :
    (opening closing : ℕ) (paired : Bool) (depth : ℕ) (escaped : Bool) (i : ℕ) (s : Bytes)
    → leb i (suc (sigil_end_from opening closing paired depth escaped i s)) ≡ true
unfolding sigil_end_from
sigil_end_from-ahead opening closing paired depth escaped i [] = ground arith
sigil_end_from-ahead opening closing paired depth escaped i (c ∷ s) =
    let next = sigil_byte opening closing paired c depth escaped in
    if_cases (λ e. leb i (suc e) ≡ true) (next.0 == 0) i _ (λ _. ground arith)
      (λ _. ground (arith, sigil_end_from-ahead opening closing paired next.0 next.1 (suc i) s))

mask_found-kept :
    (content t : Bytes) (i : ℕ) (end : Option ℕ)
    → ((e : ℕ) → end ≡ some e → leb i e ≡ true)
    → Masks content t
    → Masks content (mask_found i end t).0 × (leb i (mask_found i end t).1 ≡ true)
unfolding mask_found
mask_found-kept content t i none ahead h = (h, ground arith)
mask_found-kept content t i (some e) ahead h =
    (mask_range-Masks i (suc e - i) content t h, ahead e refl)

sigil_end-ahead : (content t : Bytes) (i e : ℕ) → sigil_end content t i ≡ some e → leb i e ≡ true
unfolding sigil_end find_sigil_end
sigil_end-ahead content t i e h = elim (Option-cases (sigil_delimiter (byte_at content (i + 2)))) [
  | inl absent ↦ ground arith
  | inr ((closing, paired), found) ↦ ground (
    arith,
    sigil_end_from-ahead (byte_at content (i + 2)) closing paired 1 false (suc (i + 2))
        (drop (suc (i + 2)) content),
  )
]

comment_round-kept :
    (content t : Bytes) (i : ℕ)
    → Masks content t
    → Masks content (comment_round content i t).0 × (leb i (comment_round content i t).1 ≡ true)
unfolding comment_round
comment_round-kept content t i h =
    let n = line_length (drop i content) in
    if_cases (λ (next : Bytes × ℕ). Masks content next.0 × (leb i next.1 ≡ true))
      (is_comment_start content t i) (mask_range i n t, i + n) (t, i)
      (λ _. (mask_range-Masks i n content t h, ground arith)) (λ _. (h, ground arith))

-- The mask of an Elixir source ends with a text, whatever the source: one of the source's length, in
-- which each byte is the source's or, where the source has no newline, a blank.
pub mask_source-masked :
    (content : Bytes) → (out : Bytes) × (mask_source content ≡ some out) × Masks content out
unfolding mask_source mask_sigils sigil_round
mask_source-masked content =
    bind-kept (Masks content) (Masks content) _ _ (sanitize_source-masked content) λ sanitized h.
      bind-kept (Masks content) (Masks content) _ _
        (each_index-kept (Masks content) (sigil_round content) (length content)
          (λ i t k.
            mask_found-kept content t i (sigil_end content t i) (λ e. sigil_end-ahead content t i e)
              k)
          (length content) 0 sanitized (ground arith) h)
        λ masked k.
          each_index-kept (Masks content) (comment_round content) (length content)
            (λ i t m. comment_round-kept content t i m) (length content) 0 masked (ground arith) k
