-- ===== src/Mask/SwiftLayout.antt =====
-- What the masks of internal/lang/swift/source_sanitizer.go keep of a source's layout.
use lopper.Prelude.{
  ℕ, zero, suc, ◌-◌, true, [], ◌∷◌, ◌++◌, Option, none, some, ltb, leb, take, drop, length, ◌==◌,
  if◌then◌else◌, ◌≡◌, refl, arith, inl, inr, Bool-cases, if_cases, subst, ap,
}
use lopper.Mask.Bytes.{Bytes, newline, blank, blanks, line_length, Masks, Covers, Masks-self}
use lopper.Mask.Swift.{
  ScanState, Round, starts_with, starts_line_comment, starts_block_comment, ends_block_comment,
  StringStart, detect_string_start, matches_delimiter, string_round, block_comment_round,
  code_round, opening_round, round, hide, blank_loop, start, prepend, blank_strings_and_comments,
  blank_comments,
}
use lopper.Mask.SwiftOpenings.{
  clear, clear-blanks, Masks-append, clear-length, starts_with-clear, line_length-clear,
  detect_string_start-clear, delimiter_length-clear,
}

-- The text that a round shows in place of bytes without a newline masks them.
IsFaithful : (ℕ → Bytes → Bytes) → Type 0
IsFaithful show = (n : ℕ) (s : Bytes) → clear n s ≡ true → Masks (take n s) (show n s)

hide-IsFaithful : IsFaithful hide
unfolding IsFaithful
hide-IsFaithful = clear-blanks

take-IsFaithful : IsFaithful take
unfolding IsFaithful
take-IsFaithful n s h = Masks-self (take n s)

-- A round consumes bytes that are there, and what it writes masks them.
record Advances (s : Bytes) (r : Round) : Type 0 where
  pub consumes : ltb 0 r.consumed ≡ true
  pub bounded : leb r.consumed (length s) ≡ true
  pub masks : Masks (take r.consumed s) r.written

clear-Advances :
    (s w : Bytes) (n : ℕ) (st : ScanState)
    → ltb 0 n ≡ true
    → clear n s ≡ true
    → Masks (take n s) w
    → Advances s (record { written = w; consumed = n; state = st })
clear-Advances s w n st p h m = record { consumes = p; bounded = clear-length n s h; masks = m }

one-Advances :
    (c d : ℕ) (s : Bytes) (st : ScanState)
    → Covers c d
    → Advances (c ∷ s) (record { written = d ∷ []; consumed = 1; state = st })
one-Advances c d s st h = record { consumes = refl; bounded = ground arith; masks = (h, tt) }

newline_shown : (c : ℕ) → Covers c (if c == newline then newline else blank)
newline_shown c = elim (Bool-cases (c == newline)) [
  | inl p ↦ inl (ground arith)
  | inr p ↦ inr (ground arith, ground arith)
]

two-Advances :
    (s : Bytes) (st : ScanState)
    → clear 2 s ≡ true
    → Advances s (record { written = blanks 2; consumed = 2; state = st })
two-Advances s st h = clear-Advances s _ 2 st refl h (clear-blanks 2 s h)

block_comment_round-Advances :
    (st : ScanState) (c : ℕ) (s : Bytes) → Advances (c ∷ s) (block_comment_round st c s)
unfolding block_comment_round starts_block_comment ends_block_comment
block_comment_round-Advances st c s =
    if_cases (Advances (c ∷ s)) (starts_with b'/' b'*' (c ∷ s)) _ _
      (λ h. two-Advances (c ∷ s) _ (starts_with-clear b'/' b'*' (c ∷ s) refl refl h))
      (λ _.
        if_cases (Advances (c ∷ s)) (starts_with b'*' b'/' (c ∷ s)) _ _
          (λ h. two-Advances (c ∷ s) _ (starts_with-clear b'*' b'/' (c ∷ s) refl refl h))
          (λ _. one-Advances c _ s st (newline_shown c)))

string_round-Advances :
    (show : ℕ → Bytes → Bytes) (st : ScanState) (c : ℕ) (s : Bytes)
    → IsFaithful show
    → Advances (c ∷ s) (string_round show st c s)
unfolding string_round IsFaithful
string_round-Advances show st c s faithful =
    if_cases (Advances (c ∷ s)) (matches_delimiter st (c ∷ s)) _ _
      (λ h.
        let (p, v) = delimiter_length-clear st (c ∷ s) h in
        clear-Advances (c ∷ s) _ _ _ p v (faithful _ _ v))
      (λ _. record {
        consumes = refl;
        bounded = ground arith;
        masks =
            if_cases (Masks (c ∷ [])) (c == newline) _ _ (λ p. (inl (ground arith), tt))
              (λ p. faithful 1 (c ∷ s) (ground arith));
      })

line_length-positive :
    (c : ℕ) (s : Bytes) → clear 2 (c ∷ s) ≡ true → ltb 0 (line_length (c ∷ s)) ≡ true
unfolding line_length
line_length-positive c s h = ground arith

opening_round-Advances :
    (show : ℕ → Bytes → Bytes) (st : ScanState) (c : ℕ) (s : Bytes) (found : Option StringStart)
    → IsFaithful show
    → detect_string_start (c ∷ s) ≡ found
    → Advances (c ∷ s) (opening_round show st c s found)
unfolding opening_round IsFaithful
opening_round-Advances show st c s none faithful h = one-Advances c c s st (inl refl)
opening_round-Advances show st c s (some found) faithful h =
    let (p, v) = detect_string_start-clear (c ∷ s) found h in
    clear-Advances (c ∷ s) _ _ _ p v (faithful _ _ v)

code_round-Advances :
    (show : ℕ → Bytes → Bytes) (st : ScanState) (c : ℕ) (s : Bytes)
    → IsFaithful show
    → Advances (c ∷ s) (code_round show st c s)
unfolding code_round starts_block_comment starts_line_comment
code_round-Advances show st c s faithful =
    if_cases (Advances (c ∷ s)) (starts_with b'/' b'/' (c ∷ s)) _ _
      (λ h.
        clear-Advances (c ∷ s) _ _ _
          (line_length-positive c s (starts_with-clear b'/' b'/' (c ∷ s) refl refl h))
          (line_length-clear (c ∷ s)) (clear-blanks _ _ (line_length-clear (c ∷ s))))
      (λ _.
        if_cases (Advances (c ∷ s)) (starts_with b'/' b'*' (c ∷ s)) _ _
          (λ h. two-Advances (c ∷ s) _ (starts_with-clear b'/' b'*' (c ∷ s) refl refl h))
          (λ _. opening_round-Advances show st c s (detect_string_start (c ∷ s)) faithful refl))

round-Advances :
    (show : ℕ → Bytes → Bytes) (st : ScanState) (c : ℕ) (s : Bytes)
    → IsFaithful show
    → Advances (c ∷ s) (round show st c s)
unfolding round
round-Advances show st c s faithful =
    if_cases (Advances (c ∷ s)) st.in_string _ _ (λ _. string_round-Advances show st c s faithful)
      (λ _.
        if_cases (Advances (c ∷ s)) (ltb 0 st.block_depth) _ _
          (λ _. block_comment_round-Advances st c s)
          (λ _. code_round-Advances show st c s faithful))

take-drop : (n : ℕ) (s : Bytes) → take n s ++ drop n s ≡ s
take-drop zero s = refl
take-drop (suc n) [] = refl
take-drop (suc n) (c ∷ s) = ap (λ rest. c ∷ rest) (take-drop n s)

length-drop : (n : ℕ) (s : Bytes) → length (drop n s) ≡ length s - n
length-drop zero s = omega arith
length-drop (suc n) [] = omega arith
length-drop (suc n) (c ∷ s) = omega (arith, length-drop n s)

-- A text came out, and it masks the source.
IsMasked : Bytes → Option Bytes → Type 0
IsMasked s result = (out : Bytes) × (result ≡ some out) × Masks s out

prepend-IsMasked :
    (n : ℕ) (s w : Bytes) (result : Option Bytes)
    → Masks (take n s) w
    → IsMasked (drop n s) result
    → IsMasked s (prepend w result)
unfolding IsMasked
prepend-IsMasked n s w result m (out, e, h) = (
  w ++ out,
  rw e refl,
  subst (λ x. Masks x (w ++ out)) (take-drop n s) (Masks-append _ w _ out m h),
)

blank_loop-IsMasked :
    (show : ℕ → Bytes → Bytes) (fuel : ℕ) (st : ScanState) (s : Bytes)
    → IsFaithful show
    → leb (length s) fuel ≡ true
    → IsMasked s (blank_loop show fuel st s)
unfolding blank_loop IsMasked
blank_loop-IsMasked show fuel st [] faithful h = ([], refl, tt)
blank_loop-IsMasked show zero st (c ∷ s) faithful h = ground arith
blank_loop-IsMasked show (suc fuel) st (c ∷ s) faithful h =
    let r = round show st c s in
    let v = round-Advances show st c s faithful in
    prepend-IsMasked r.consumed (c ∷ s) r.written _ v.masks (
      blank_loop-IsMasked show fuel r.state (drop r.consumed (c ∷ s)) faithful
        (ground (arith, length-drop r.consumed (c ∷ s), v.consumes)))

-- Each mask of a Swift source ends with a text, whatever the source: one of the source's length, in
-- which each byte is the source's or, where the source has no newline, a blank.
pub blank_swift-masked :
    (content : Bytes)
    → ((out : Bytes) × (blank_strings_and_comments content ≡ some out) × Masks content out)
      × ((out : Bytes) × (blank_comments content ≡ some out) × Masks content out)
unfolding blank_strings_and_comments blank_comments IsMasked
blank_swift-masked content = (
  blank_loop-IsMasked hide (length content) start content hide-IsFaithful (ground arith),
  blank_loop-IsMasked take (length content) start content take-IsFaithful (ground arith),
)
