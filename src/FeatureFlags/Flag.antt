-- ===== src/FeatureFlags/Flag.antt =====
-- internal/featureflags/registry.go: flags, and the functions that normalize and validate them.
use lopper.Prelude.{
  ℕ, ◌+◌, ◌-◌, ◌*◌, Bool, true, false, not, ◌&&◌, ◌||◌, List, [], ◌∷◌, ◌++◌, none, some, leb, ltb,
  ◌==◌, if◌then◌else◌, any, drop,
}
use lopper.Prelude.Result.{Result, ok, err, ◌>>=◌, ◌>>◌}
use lopper.Text.{Str, codes, str_eq, trim_space, to_lower, byte_length, has_prefix}
use lopper.Regex.{Regex, seq, opt, one_of, find_submatch, plus, char, digit, is_digit}

-- The errors of the package, by the `fmt.Errorf` that makes them.
pub data FlagError : Type 0 where
  code_required : FlagError
  code_format code_digits : Str → FlagError
  name_required : FlagError
  name_format : Str → FlagError
  deprecated_is_canonical : Str → FlagError
  invalid_lifecycle invalid_channel invalid_release : Str → FlagError
  duplicate_code duplicate_name : Str → FlagError
  unknown_feature : Str → FlagError
  enabled_and_disabled : FlagError
  release_required : FlagError
  unknown_in_lock duplicate_in_lock unknown_note : Str → FlagError
  codes_exhausted : FlagError

-- `Flag`.
pub record Flag : Type 0 where
  pub code : Str
  pub name : Str
  pub deprecated_names : List Str
  pub description : Str
  pub lifecycle : Str
  pub first_stable_release : Str

abbrev pub Checked : Type 0 → Type 0
Checked A = Result FlagError A

abbrev pub guard : Bool → FlagError → Checked (Unit {0})
guard true e = ok tt
guard false e = err e

abbrev pub lifecycle_preview : Str
lifecycle_preview = codes "preview"

abbrev pub lifecycle_stable : Str
lifecycle_stable = codes "stable"

abbrev pub feature_code_prefix : Str
feature_code_prefix = codes "LOP-FEAT-"

abbrev pub max_feature_code : ℕ
max_feature_code = 9999

-- The loop of `featureCodeNumber` over the suffix of the code.
unfoldable pub suffix_number : Str → ℕ → Str → Checked ℕ
suffix_number code value [] = ok value
suffix_number code value (c ∷ s) =
    let rest = suffix_number code (value * 10 + (c - b'0')) s in
    if ltb c b'0' || ltb b'9' c then err (code_digits code) else rest

-- `featureCodeNumber`.
unfoldable pub feature_code_number : Str → Checked ℕ
feature_code_number code = do
  guard (not (str_eq code [])) code_required
  guard (has_prefix code feature_code_prefix) (code_format code)
  guard (byte_length (drop 9 code) == 4) (code_format code)
  suffix_number code 0 (drop 9 code)

-- `validateFeatureCode`.
unfoldable pub validate_feature_code : Str → Checked (Unit {0})
validate_feature_code code = do feature_code_number code; ok tt

abbrev pub is_name_rune : ℕ → Bool
is_name_rune c = leb b'a' c && leb c b'z' || leb b'0' c && leb c b'9' || c == b'-'

-- The loop of `validateFeatureName`.
unfoldable pub check_name_runes : Str → Str → Checked (Unit {0})
check_name_runes name [] = ok tt
check_name_runes name (c ∷ s) =
    if is_name_rune c then check_name_runes name s else err (name_format name)

-- `validateFeatureName`.
unfoldable pub validate_feature_name : Str → Checked (Unit {0})
validate_feature_name name = do
  guard (not (str_eq name [])) name_required
  check_name_runes name name

abbrev pub contains : Str → List Str → Bool
contains name names = any (λ other. str_eq other name) names

-- The loop of `normalizeDeprecatedFeatureNames`; `kept` is both `seen` and `normalized`.
unfoldable pub normalize_deprecated_from : Str → List Str → List Str → Checked (List Str)
normalize_deprecated_from canonical kept [] = ok kept
normalize_deprecated_from canonical kept (name ∷ names) =
    let trimmed = trim_space name in
    let skip = normalize_deprecated_from canonical kept names in
    let keep = normalize_deprecated_from canonical (kept ++ trimmed ∷ []) names in
    if str_eq trimmed [] then skip else do
      validate_feature_name trimmed
      guard (not (str_eq trimmed canonical)) (deprecated_is_canonical trimmed)
      if contains trimmed kept then skip else keep

-- `normalizeDeprecatedFeatureNames`.
unfoldable pub normalize_deprecated_names : Str → List Str → Checked (List Str)
normalize_deprecated_names canonical names = normalize_deprecated_from canonical [] names

-- `NormalizeLifecycle`.
unfoldable pub normalize_lifecycle : Str → Checked Str
normalize_lifecycle value =
    let lowered = to_lower (trim_space value) in
    if str_eq lowered (codes "preview") || str_eq lowered (codes "experimental")
    then ok lifecycle_preview
    else if str_eq lowered (codes "stable") || str_eq lowered (codes "done")
    then ok lifecycle_stable
    else err (invalid_lifecycle value)

abbrev is_release_rune : ℕ → Bool
is_release_rune c =
    is_digit c || leb b'A' c && leb c b'Z' || leb b'a' c && leb c b'z' || c == b'.' || c == b'-'

-- `stableReleaseVersionPattern`.
abbrev stable_release_re : Regex
stable_release_re = seq (char b'v') (
    seq (plus digit) (
      seq (char b'.') (
        seq (plus digit) (
          seq (char b'.') (
            seq (plus digit) (
              opt (seq (one_of (λ c. c == b'-' || c == b'+')) (plus (one_of is_release_rune)))))))))

abbrev with_v : Str → Str
with_v value =
    if has_prefix (to_lower value) (codes "v")
    then b'v' ∷ trim_space (drop 1 value)
    else b'v' ∷ value

check_release : Str → Checked Str
check_release value = elim (find_submatch stable_release_re value) [
  | none ↦ err (invalid_release value)
  | some _ ↦ ok value
]

-- `normalizeStableReleaseVersion`.
unfoldable pub normalize_stable_release : Str → Checked Str
unfolding check_release
normalize_stable_release value =
    let trimmed = trim_space value in
    if str_eq trimmed [] then ok [] else check_release (with_v trimmed)

-- `normalizeFlag`.
unfoldable pub normalize_flag : Flag → Checked Flag
normalize_flag flag = do
  let code = trim_space flag.code
  let name = trim_space flag.name
  validate_feature_code code
  validate_feature_name name
  deprecated ← normalize_deprecated_names name flag.deprecated_names
  lifecycle ← normalize_lifecycle flag.lifecycle
  release ← normalize_stable_release flag.first_stable_release
  ok (record {
    code = code;
    name = name;
    deprecated_names = deprecated;
    description = trim_space flag.description;
    lifecycle = lifecycle;
    first_stable_release = release;
  })
