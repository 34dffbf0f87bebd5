-- ===== src/FeatureFlags/Registry.antt =====
-- internal/featureflags/registry.go: the registry. `cloneFlag` copies a slice, which a value of the
-- model has no need of.
use lopper.Prelude.{
  ℕ, ◌+◌, ◌/◌, ◌%◌, Bool, true, false, not, List, [], ◌∷◌, ◌++◌, Option, none, some, ltb,
  if◌then◌else◌,
}
use lopper.Prelude.Result.{ok, err, ◌>>=◌, ◌>>◌}
use lopper.Prelude.Sort.{sort_by, is_lt}
use lopper.Text.{Str, str_eq, trim_space, compare_str}
use lopper.Dict.{Dict, lookup, insert, has_key}
use lopper.FeatureFlags.Flag.{
  Flag, duplicate_code, duplicate_name, codes_exhausted, Checked, guard, normalize_flag,
  feature_code_number, max_feature_code, feature_code_prefix,
}

-- `Registry`.
pub record Registry : Type 0 where
  pub flags : List Flag
  pub by_code : Dict Flag
  pub by_name : Dict Flag
  pub deprecated_by_name : Dict Flag

-- `emptyRegistry`, also where `NewRegistry` starts.
abbrev pub empty_registry : Registry
empty_registry = record { flags = []; by_code = []; by_name = []; deprecated_by_name = [] }

-- `registerFeatureName`.
unfoldable pub register_feature_name : Str → Flag → Bool → Registry → Checked Registry
register_feature_name name flag deprecated r =
    if has_key name r.by_name
    then err (duplicate_name name)
    else ok (record r {
      by_name = insert name flag r.by_name;
      deprecated_by_name =
          if deprecated then insert name flag r.deprecated_by_name else r.deprecated_by_name;
    })

-- The inner loop of `NewRegistry`.
unfoldable pub register_deprecated : Flag → List Str → Registry → Checked Registry
register_deprecated flag [] r = ok r
register_deprecated flag (name ∷ names) r = do
  r' ← register_feature_name name flag true r
  register_deprecated flag names r'

-- One round of the outer loop, for a normalized flag.
unfoldable pub add_flag : Flag → Registry → Checked Registry
add_flag flag r = do
  guard (not (has_key flag.code r.by_code)) (duplicate_code flag.code)
  named ← register_feature_name flag.name flag false r
  register_deprecated flag flag.deprecated_names (record named {
    flags = named.flags ++ flag ∷ [];
    by_code = insert flag.code flag named.by_code;
  })

unfoldable pub add_flags : List Flag → Registry → Checked Registry
add_flags [] r = ok r
add_flags (flag ∷ flags) r = do
  normalized ← normalize_flag flag
  r' ← add_flag normalized r
  add_flags flags r'

abbrev pub earlier_code : Flag → Flag → Bool
earlier_code a b = is_lt (compare_str a.code b.code)

-- `NewRegistry`.
unfoldable pub new_registry : List Flag → Checked Registry
new_registry flags = do
  r ← add_flags flags empty_registry
  ok (record r { flags = sort_by earlier_code r.flags })

-- `LookupResult`.
pub record LookupResult : Type 0 where
  pub flag : Flag
  pub reference : Str
  pub deprecated : Bool
  pub replacement_ref : Str

-- `LookupReference` from the map of names on.
abbrev lookup_name : Registry → Str → Option Flag → Option LookupResult
lookup_name r reference none = none
lookup_name r reference (some flag) =
    if has_key reference r.deprecated_by_name
    then some (record {
      flag = flag;
      reference = reference;
      deprecated = true;
      replacement_ref = flag.name;
    })
    else some
        (record { flag = flag; reference = reference; deprecated = false; replacement_ref = [] })

abbrev lookup_code : Registry → Str → Option Flag → Option LookupResult
lookup_code r reference (some flag) =
    some (record { flag = flag; reference = reference; deprecated = false; replacement_ref = [] })
lookup_code r reference none = lookup_name r reference (lookup reference r.by_name)

-- `LookupReference` of a registry that is not nil.
unfoldable pub lookup_reference : Registry → Str → Option LookupResult
lookup_reference r ref =
    let normalized = trim_space ref in
    if str_eq normalized [] then none else lookup_code r normalized (lookup normalized r.by_code)

-- `Lookup`.
unfoldable pub lookup_flag : Registry → Str → Option Flag
lookup_flag r ref = elim (lookup_reference r ref) [ none ↦ none | some result ↦ some result.flag ]

-- The loop of `NextCode`.
unfoldable pub highest_code : ℕ → List Flag → Checked ℕ
highest_code highest [] = ok highest
highest_code highest (flag ∷ flags) = do
  value ← feature_code_number flag.code
  highest_code (if ltb highest value then value else highest) flags

-- `%04d` of a number below 10000.
unfoldable pub four_digits : ℕ → Str
four_digits n =
    (b'0' + n / 1000 % 10) ∷ (b'0' + n / 100 % 10) ∷ (b'0' + n / 10 % 10) ∷ (b'0' + n % 10) ∷ []

-- `NextCode` of a registry that is not nil.
unfoldable pub next_code : Registry → Checked Str
next_code r = do
  highest ← highest_code 0 r.flags
  guard (ltb highest max_feature_code) codes_exhausted
  ok (feature_code_prefix ++ four_digits (highest + 1))
