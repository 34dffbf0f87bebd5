-- ===== src/Tests/Flags.antt =====
-- The theorems on internal/featureflags at a registry of two flags.
use lopper.Prelude.{◌++◌, arith, ◌≡◌, ◌≢◌, refl, ℕ, true, false, List, [], ◌∷◌, none, All, any}
use lopper.Prelude.Result.{ok, Ensures}
use lopper.Prelude.Sort.{sort_by}
use lopper.Text.{codes, str_eq, trim_space, to_lower, byte_length, has_prefix, compare_str}
use lopper.Regex.{find_submatch, is_digit}
use lopper.Dict.{Dict, lookup, insert}
use lopper.FeatureFlags.Flag.{
  Flag, feature_code_prefix, contains, normalize_flag, normalize_lifecycle,
  normalize_stable_release, normalize_deprecated_names, normalize_deprecated_from,
  validate_feature_name, validate_feature_code, check_name_runes, feature_code_number,
  suffix_number,
}
use lopper.FeatureFlags.Registry.{
  Registry, new_registry, add_flags, add_flag, register_deprecated, register_feature_name,
  lookup_reference, next_code, highest_code, four_digits,
}
use lopper.FeatureFlags.Resolve.{
  ResolveOptions, rolling, FlagSet, DeprecatedReference, resolve, resolve_refs, resolve_normalized,
  normalize_refs, normalize_channel, validate_release_lock, apply_explicit_overrides,
  apply_release_lock, channel_defaults, defaults_from, assign_all, merge_deprecated,
}
use lopper.FeatureFlags.Registering.{IsValid}
use lopper.FeatureFlags.Invariant.{new_registry-IsValid}
use lopper.FeatureFlags.Lookup.{IsReachable, new_registry-IsReachable}
use lopper.FeatureFlags.Overrides.{overridden, resolve-overridden}
use lopper.FeatureFlags.NextCode.{next_code-fresh, number_of_code}

abbrev first_flag : Flag
first_flag = record {
  code = codes "LOP-FEAT-0001";
  name = codes "swift-preview";
  deprecated_names = codes "swift" ∷ [];
  description = [];
  lifecycle = codes "preview";
  first_stable_release = [];
}

abbrev second_flag : Flag
second_flag = record {
  code = codes "LOP-FEAT-0007";
  name = codes "sarif";
  deprecated_names = [];
  description = [];
  lifecycle = codes "stable";
  first_stable_release = codes "v1.2.0";
}

abbrev by_names : Dict Flag
by_names =
    (codes "swift-preview", first_flag)
    ∷ (codes "swift", first_flag)
    ∷ (codes "sarif", second_flag)
    ∷ []

abbrev two_flags : Registry
two_flags = record {
  flags = first_flag ∷ second_flag ∷ [];
  by_code = (codes "LOP-FEAT-0001", first_flag) ∷ (codes "LOP-FEAT-0007", second_flag) ∷ [];
  by_name = by_names;
  deprecated_by_name = (codes "swift", first_flag) ∷ [];
}

built : new_registry (first_flag ∷ second_flag ∷ []) ≡ ok two_flags
unfolding new_registry add_flags add_flag register_deprecated register_feature_name normalize_flag
    normalize_lifecycle normalize_stable_release normalize_deprecated_names
    normalize_deprecated_from validate_feature_name validate_feature_code check_name_runes
    feature_code_number suffix_number byte_length has_prefix lookup insert str_eq compare_str
    sort_by trim_space to_lower find_submatch is_digit
built = refl

new_registry-IsValid_example : Ensures IsValid (new_registry (first_flag ∷ second_flag ∷ []))
new_registry-IsValid_example = new_registry-IsValid (first_flag ∷ second_flag ∷ [])

new_registry-IsReachable_example : All (IsReachable two_flags) two_flags.flags
new_registry-IsReachable_example = new_registry-IsReachable (first_flag ∷ second_flag ∷ []) built

next : next_code two_flags ≡ ok (codes "LOP-FEAT-0008")
unfolding next_code highest_code four_digits feature_code_number suffix_number byte_length
    has_prefix str_eq
next = refl

next_code-fresh_example :
    ((n : ℕ) × (feature_code_number (codes "LOP-FEAT-0008") ≡ ok n))
    × All (λ flag. flag.code ≢ codes "LOP-FEAT-0008") two_flags.flags
next_code-fresh_example = next_code-fresh two_flags next

abbrev options : ResolveOptions
options = record {
  channel = codes "Rolling";
  lock = none;
  enable = codes "swift" ∷ [];
  disable = codes " sarif" ∷ [];
}

abbrev old_name : List DeprecatedReference
old_name =
    record {
      code = codes "LOP-FEAT-0001";
      name = codes "swift";
      replacement = codes "swift-preview";
    }
    ∷ []

abbrev resolved : FlagSet
resolved = record {
  enabled = (codes "LOP-FEAT-0001", true) ∷ (codes "LOP-FEAT-0007", false) ∷ [];
  by_code = two_flags.by_code;
  by_name = two_flags.by_name;
  deprecations = old_name;
}

on_rolling : normalize_channel (codes "Rolling") ≡ ok rolling
unfolding normalize_channel trim_space to_lower str_eq
on_rolling = refl

refs_on : resolve_refs two_flags (codes "swift" ∷ []) ≡ ok (codes "LOP-FEAT-0001" ∷ [], old_name)
unfolding resolve_normalized normalize_refs lookup_reference lookup str_eq trim_space
refs_on = refl

refs_off : resolve_refs two_flags (codes " sarif" ∷ []) ≡ ok (codes "LOP-FEAT-0007" ∷ [], [])
unfolding resolve_normalized normalize_refs lookup_reference lookup str_eq trim_space
refs_off = refl

resolves : resolve two_flags options ≡ ok resolved
unfolding resolve normalize_channel validate_release_lock apply_explicit_overrides
    apply_release_lock defaults_from assign_all merge_deprecated resolve_normalized normalize_refs
    lookup_reference lookup insert str_eq trim_space to_lower
resolves = refl

resolve-overridden_example :
    (lookup (codes "LOP-FEAT-0001") resolved.enabled
      ≡ overridden
          (codes "LOP-FEAT-0001" ∷ [])
          (codes "LOP-FEAT-0007" ∷ [])
          (codes "LOP-FEAT-0001")
          (lookup
            (codes "LOP-FEAT-0001")
            (apply_release_lock two_flags rolling none (channel_defaults two_flags rolling))))
    × (any (λ code. contains code (codes "LOP-FEAT-0007" ∷ [])) (codes "LOP-FEAT-0001" ∷ [])
        ≡ false)
resolve-overridden_example =
    resolve-overridden two_flags options rolling (codes "LOP-FEAT-0001" ∷ [])
      (codes "LOP-FEAT-0007" ∷ []) old_name [] (codes "LOP-FEAT-0001") on_rolling refs_on refs_off
      resolves

number_of_code_example : feature_code_number (feature_code_prefix ++ four_digits 42) ≡ ok 42
number_of_code_example = number_of_code 42 (omega arith)
