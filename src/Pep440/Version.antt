-- ===== src/Pep440/Version.antt =====
-- internal/report/pep440/pep440.go: the parsed version and `parsePEP440Version`.
use mathlib.Core.List.{reverse}
use lopper.Prelude.{
  ℕ, Bool, false, not, ◌&&◌, ◌||◌, List, [], ◌∷◌, map, Option, ◌==◌, if◌then◌else◌,
}
use mathlib.Core.Option
use lopper.Prelude.Int.{ℤ, pos, negsuc}
use Prim.Native.String.{String}
use lopper.Text.{Str, codes, str_eq, trim_space, to_lower}
use lopper.Regex.{
  Regex, one_of, seq, alt, opt, star, group, Captures, find_submatch, submatch, plus, char, digit,
  words, is_alphanumeric, is_digit, fold_eq,
}

pub record Version : Type 0 where
  pub epoch : Str
  pub release : List Str
  pub pre_kind : ℤ
  pub pre_number : Str
  pub post_number : Str
  pub dev_number : Str
  pub local_parts : List Str
  pub has_post : Bool
  pub has_dev : Bool
  pub has_local : Bool

abbrev is_separator : ℕ → Bool
is_separator c = c == b'-' || c == b'_' || c == b'.'

abbrev separator : Regex
separator = one_of is_separator

-- `(tag)[-_.]?(\d*)` behind an optional separator.
abbrev tagged : ℕ → List String → ℕ → Regex
tagged i tags j =
    seq (opt separator)
      (seq (group i (words (map codes tags))) (seq (opt separator) (group j (star digit))))

-- `pep440VersionRe`, a line for each part of the pattern.
abbrev pub version_re : Regex
version_re = seq (opt (one_of (fold_eq b'v'))) (
    seq (opt (seq (group 1 (plus digit)) (char b'!'))) (
      seq (group 2 (seq (plus digit) (star (seq (char b'.') (plus digit))))) (
        seq (opt (tagged 3 ("a" ∷ "b" ∷ "c" ∷ "rc" ∷ "alpha" ∷ "beta" ∷ "pre" ∷ "preview" ∷ []) 4))
          (seq
            (opt (
              alt (seq (char b'-') (group 5 (plus digit)))
                (tagged 6 ("post" ∷ "rev" ∷ "r" ∷ []) 7)))
            (seq (opt (tagged 8 ("dev" ∷ []) 9)) (
              opt (
                seq (char b'+') (
                  group 10 (
                    seq (plus (one_of is_alphanumeric))
                      (star (seq separator (plus (one_of is_alphanumeric)))))))))))))

-- `strings.TrimLeft(value, "0")`.
unfoldable pub trim_zeros : Str → Str
trim_zeros [] = []
trim_zeros (c ∷ s) = let rest = trim_zeros s in if c == b'0' then rest else c ∷ s

-- `normalizedPEP440Number`.
unfoldable pub normalized_number : Str → Str
unfolding trim_zeros str_eq
normalized_number value =
    let trimmed = trim_zeros value in
    if str_eq trimmed [] && not (str_eq value []) then codes "0" else trimmed

-- `normalizedPEP440OptionalNumber`.
pub normalized_optional_number : Str → Str
unfolding normalized_number
normalized_optional_number value = if str_eq value [] then codes "0" else normalized_number value

abbrev pub cons_first : ℕ → List Str → List Str
cons_first c [] = (c ∷ []) ∷ []
cons_first c (part ∷ parts) = (c ∷ part) ∷ parts

-- `strings.Split` at a one-character separator.
unfoldable pub split : ℕ → Str → List Str
split sep [] = [] ∷ []
split sep (c ∷ s) = let rest = split sep s in if c == sep then [] ∷ rest else cons_first c rest

-- `Split` of `pep440LocalSeparatorRe`: a run of separators separates once.
pub split_runs : Bool → Str → List Str
split_runs in_run [] = [] ∷ []
split_runs in_run (c ∷ s) =
    let rest = split_runs (is_separator c) s in
    if is_separator c then if in_run then rest else [] ∷ rest else cons_first c rest

-- The loop of `normalizedPEP440Release`, over the parts from the last one on.
unfoldable pub drop_last_zeros : List Str → List Str
drop_last_zeros [] = []
drop_last_zeros (part ∷ []) = part ∷ []
drop_last_zeros (part ∷ next ∷ parts) =
    let rest = drop_last_zeros (next ∷ parts) in
    if str_eq (normalized_number part) (codes "0") then rest else part ∷ next ∷ parts

-- `normalizedPEP440Release`.
unfoldable pub normalized_release : Str → List Str
unfolding split drop_last_zeros normalized_number
normalized_release value =
    map normalized_number (reverse (drop_last_zeros (reverse (split b'.' value))))

-- `firstPEP440Value` of two values.
abbrev first_value : Str → Str → Str
first_value a b = if not (str_eq a []) then a else b

-- The `switch` on the lowered pre-release tag.
unfoldable pub pre_kind_of : Str → Bool → Bool → ℤ
unfolding str_eq
pre_kind_of tag has_dev has_post =
    if str_eq tag (codes "a")
    then pos 0
    else if str_eq tag (codes "b")
    then pos 1
    else if str_eq tag (codes "c")
        || str_eq tag (codes "rc")
        || str_eq tag (codes "pre")
        || str_eq tag (codes "preview")
    then pos 2
    else if str_eq tag (codes "alpha")
    then pos 0
    else if str_eq tag (codes "beta")
    then pos 1
    else if has_dev && not has_post
    then negsuc 0
    else pos 3

-- The struct literal and what follows it, from the texts of the groups.
unfoldable pub version_of : Captures → Version
unfolding submatch normalized_number normalized_optional_number normalized_release pre_kind_of
    split_runs to_lower str_eq
version_of m =
    let present = λ (i : ℕ). not (str_eq (submatch i m) []) in
    let has_post = present 5 || present 6 in
    let has_dev = present 8 in
    let has_local = present 10 in
    let epoch = normalized_number (submatch 1 m) in
    record {
      epoch = if str_eq epoch [] then codes "0" else epoch;
      release = normalized_release (submatch 2 m);
      pre_kind = pre_kind_of (to_lower (submatch 3 m)) has_dev has_post;
      pre_number = normalized_optional_number (submatch 4 m);
      post_number = normalized_optional_number (first_value (submatch 5 m) (submatch 7 m));
      dev_number = normalized_optional_number (submatch 9 m);
      local_parts = if has_local then split_runs false (to_lower (submatch 10 m)) else [];
      has_post = has_post;
      has_dev = has_dev;
      has_local = has_local;
    }

-- `parsePEP440Version`.
unfoldable pub parse_version : Str → Option Version
unfolding find_submatch fold_eq is_digit is_alphanumeric trim_space version_of
parse_version value = Option.map version_of (find_submatch version_re (trim_space value))
