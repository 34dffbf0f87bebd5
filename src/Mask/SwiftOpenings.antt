-- ===== src/Mask/SwiftOpenings.antt =====
-- The bytes that internal/lang/swift/source_sanitizer.go consumes at once, none of them a newline.
use lopper.Prelude.{
  ℕ, zero, suc, ◌+◌, Bool, true, false, not, ◌&&◌, [], ◌∷◌, ◌++◌, some, ltb, leb, take, drop,
  length, ◌==◌, ◌≡◌, refl, arith, inl, inr, Bool-cases, subst, ==_iff,
}
use lopper.Mask.Bytes.{Bytes, newline, blanks, line_length, Masks}
use lopper.Mask.Swift.{
  ScanState, starts_with, StringStart, after_hashes, detect_string_start, quote, repeats,
  quote_count, delimiter_length, matches_delimiter,
}

-- The first bytes are there and none of them is a newline.
abbrev pub clear : ℕ → Bytes → Bool
clear zero s = true
clear (suc n) [] = false
clear (suc n) (c ∷ s) = not (c == newline) && clear n s

pub clear-blanks : (n : ℕ) (s : Bytes) → clear n s ≡ true → Masks (take n s) (blanks n)
unfolding blanks
clear-blanks zero s h = tt
clear-blanks (suc n) (c ∷ s) h = (inr (refl, ground arith), clear-blanks n s (ground arith))
clear-blanks (suc n) [] h = ground arith

pub Masks-append : (s s1 t t1 : Bytes) → Masks s s1 → Masks t t1 → Masks (s ++ t) (s1 ++ t1)
Masks-append [] [] t t1 h k = k
Masks-append (c ∷ s) (d ∷ s1) t t1 h k = (h.0, Masks-append s s1 t t1 h.1 k)
Masks-append [] (d ∷ s1) t t1 h k = elim h [ ]
Masks-append (c ∷ s) [] t t1 h k = elim h [ ]

pub clear-length : (n : ℕ) (s : Bytes) → clear n s ≡ true → leb n (length s) ≡ true
clear-length zero s h = ground arith
clear-length (suc n) [] h = ground arith
clear-length (suc n) (c ∷ s) h = ground (arith, clear-length n s)

clear_add :
    (m n : ℕ) (s : Bytes) → clear m s ≡ true → clear n (drop m s) ≡ true → clear (m + n) s ≡ true
clear_add zero n s h k = subst (λ m. clear m s ≡ true) (omega arith) k
clear_add (suc m) n [] h k = ground arith
clear_add (suc m) n (c ∷ s) h k =
    subst (λ x. clear x (c ∷ s) ≡ true) {x = suc (m + n)} (omega arith)
      (ground (arith, clear_add m n s))

repeats-clear :
    (n b : ℕ) (s : Bytes) → b == newline ≡ false → repeats n b s ≡ true → clear n s ≡ true
unfolding repeats
repeats-clear zero b s p h = refl
repeats-clear (suc n) b [] p h = ground arith
repeats-clear (suc n) b (c ∷ s) p h = ground (arith, repeats-clear n b s, ==_iff c b)

pub starts_with-clear :
    (a b : ℕ) (s : Bytes)
    → a == newline ≡ false
    → b == newline ≡ false
    → starts_with a b s ≡ true
    → clear 2 s ≡ true
starts_with-clear a b [] p q h = ground arith
starts_with-clear a b (c ∷ []) p q h = ground arith
starts_with-clear a b (c ∷ d ∷ s) p q h = ground arith

pub line_length-clear : (s : Bytes) → clear (line_length s) s ≡ true
unfolding line_length
line_length-clear [] = refl
line_length-clear (c ∷ s) = ground (arith, line_length-clear s)

-- The opening that is found, from the place where some hashes were counted.
after_hashes-clear :
    (n : ℕ) (s : Bytes) (found : StringStart)
    → after_hashes n s ≡ some found
    → (k : ℕ) × (found.opening ≡ n + suc k) × (clear (suc k) s ≡ true)
unfolding after_hashes
after_hashes-clear n [] found h = ground arith
after_hashes-clear n (c ∷ []) found h = (0, ground arith, ground arith)
after_hashes-clear n (c ∷ d ∷ s) found h = elim (Bool-cases (c == b'#')) [
  | inl p ↦
      let (k, e, v) = after_hashes-clear (n + 1) (d ∷ s) found (ground arith) in
      (suc k, omega (arith, e), ground (arith, v))
  | inr p ↦ elim (Bool-cases (starts_with quote quote (d ∷ s))) [
    | inl q ↦ (2, ground arith, ground (arith, starts_with-clear quote quote (d ∷ s) refl refl q))
    | inr q ↦ (0, ground arith, ground arith)
  ]
]

pub detect_string_start-clear :
    (s : Bytes) (found : StringStart)
    → detect_string_start s ≡ some found
    → (ltb 0 found.opening ≡ true) × (clear found.opening s ≡ true)
unfolding detect_string_start
detect_string_start-clear s found h =
    let (k, e, v) = after_hashes-clear 0 s found h in
    (ground (arith, e), subst (λ m. clear m s ≡ true) {x = suc k} (omega (arith, e)) v)

quote_count-clear : (b : Bool) → ltb 0 (quote_count b) ≡ true
quote_count-clear true = refl
quote_count-clear false = refl

pub delimiter_length-clear :
    (st : ScanState) (s : Bytes)
    → matches_delimiter st s ≡ true
    → (ltb 0 (delimiter_length st) ≡ true) × (clear (delimiter_length st) s ≡ true)
unfolding delimiter_length matches_delimiter
delimiter_length-clear st s h = (
  ground (arith, quote_count-clear st.multiline),
  clear_add (quote_count st.multiline) st.raw_hash_count s
      (repeats-clear (quote_count st.multiline) quote s refl (ground arith))
      (repeats-clear st.raw_hash_count b'#' (drop (quote_count st.multiline) s) refl
        (ground arith)),
)
