-- ===== src/Text.antt =====
-- Go strings as lists of code points, and the functions of package strings that the program calls.
-- Go compares strings by their bytes, which for UTF-8 is the comparison by code points.
pub mod Trim
pub mod Ascending
pub mod Split
mod Lower
use Prim.Native.Char.{code}
use Prim.Native.String.{String}
use lopper.Prelude.{
  ℕ, ◌+◌, ◌-◌, ◌≡◌, refl, ◌↔◌, Bool, true, false, ◌&&◌, ◌||◌, List, [], ◌∷◌, ◌++◌, map, arith, leb,
  ltb, ◌==◌, if◌then◌else◌, compare, Ordering, lt, eq, gt,
}
use lopper.Text.Lower.{lower_beyond_ascii}
use lopper.Prelude.Order.{IsOrder, compare-IsOrder, compare_list, compare_list-IsOrder}

abbrev pub Str : Type 0
Str = List ℕ

abbrev pub codes : String → Str
codes String.[] = []
codes (String.◌∷◌ c s) = code c ∷ codes s

-- `a == b` on strings.
unfoldable pub str_eq : Str → Str → Bool
str_eq [] [] = true
str_eq [] (b ∷ t) = false
str_eq (a ∷ s) [] = false
str_eq (a ∷ s) (b ∷ t) = a == b && str_eq s t

pub str_eq_sound : (s t : Str) → str_eq s t ≡ true → s ≡ t
unfolding str_eq
str_eq_sound [] [] h = refl
str_eq_sound [] (b ∷ t) h = ground arith
str_eq_sound (a ∷ s) [] h = ground arith
str_eq_sound (a ∷ s) (b ∷ t) h = ground (arith, str_eq_sound s t)

pub str_eq_refl : (s : Str) → str_eq s s ≡ true
unfolding str_eq
str_eq_refl [] = refl
str_eq_refl (a ∷ s) = ground (arith, str_eq_refl s)

pub str_eq_iff : (s t : Str) → (str_eq s t ≡ true) ↔ (s ≡ t)
str_eq_iff s t = (str_eq_sound s t, λ e. ground (arith, str_eq_refl s))

-- `strings.Compare`.
unfoldable pub compare_str : Str → Str → Ordering
unfolding compare_list
compare_str = compare_list compare

pub compare_str-IsOrder : IsOrder compare_str
unfolding compare_str
compare_str-IsOrder = compare_list-IsOrder compare-IsOrder

-- Strings of equal rank are the same string.
pub eq_of_compare_str : (s t : Str) → compare_str s t ≡ eq → s ≡ t
unfolding compare_str
eq_of_compare_str [] [] h = refl
eq_of_compare_str [] (b ∷ t) h = ground arith
eq_of_compare_str (a ∷ s) [] h = ground arith
eq_of_compare_str (a ∷ s) (b ∷ t) h = ground (arith, eq_of_compare_str s t)

-- `unicode.IsSpace`: all the code points with the property White_Space.
unfoldable pub is_space : ℕ → Bool
is_space c =
    leb 9 c && leb c 13
    || c == 0x20
    || c == 0x85
    || c == 0xa0
    || c == 0x1680
    || leb 0x2000 c && leb c 0x200a
    || c == 0x2028
    || c == 0x2029
    || c == 0x202f
    || c == 0x205f
    || c == 0x3000

pub trim_left : Str → Str
trim_left [] = []
trim_left (c ∷ s) = let rest = trim_left s in if is_space c then rest else c ∷ s

-- Spaces at the end are dropped: an element goes when it is a space and nothing stays behind it.
pub keep_if_needed : ℕ → Str → Str
keep_if_needed c [] = if is_space c then [] else c ∷ []
keep_if_needed c (d ∷ s) = c ∷ d ∷ s

pub trim_right : Str → Str
unfolding keep_if_needed
trim_right [] = []
trim_right (c ∷ s) = keep_if_needed c (trim_right s)

-- `strings.TrimSpace`.
unfoldable pub trim_space : Str → Str
unfolding is_space trim_left trim_right
trim_space s = trim_right (trim_left s)

-- `unicode.ToLower`.
unfoldable pub lower_rune : ℕ → ℕ
lower_rune c =
    if ltb c 0x80 then if leb b'A' c && leb c b'Z' then c + 32 else c else lower_beyond_ascii c

-- `strings.ToLower`.
unfoldable pub to_lower : Str → Str
unfolding lower_rune
to_lower = map lower_rune

-- `unicode.ToUpper` into ASCII: the small letters, the long s and the dotless i.
unfoldable pub upper_rune : ℕ → ℕ
upper_rune c =
    if leb b'a' c && leb c b'z'
    then c - 32
    else if c == 0x17f
    then b'S'
    else if c == 0x131
    then b'I'
    else c

-- `strings.ToUpper`.
unfoldable pub to_upper : Str → Str
unfolding upper_rune
to_upper = map upper_rune

-- `len(s)`: the bytes of the UTF-8 text.
abbrev pub rune_width : ℕ → ℕ
rune_width c = if ltb c 0x80 then 1 else if ltb c 0x800 then 2 else if ltb c 0x10000 then 3 else 4

unfoldable pub byte_length : Str → ℕ
byte_length [] = 0
byte_length (c ∷ s) = rune_width c + byte_length s

-- `strings.HasPrefix`, and `strings.TrimPrefix` of a prefix that is there.
unfoldable pub has_prefix : Str → Str → Bool
has_prefix s [] = true
has_prefix [] (p ∷ ps) = false
has_prefix (c ∷ s) (p ∷ ps) = c == p && has_prefix s ps
