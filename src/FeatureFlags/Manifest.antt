-- ===== src/FeatureFlags/Manifest.antt =====
-- internal/featureflags/resolver.go: what a build reads off its resolved flags.
use lopper.Prelude.{Bool, List, [], ◌∷◌, none, some, if◌then◌else◌, map}
use lopper.Prelude.Result.{ok, err, ◌>>=◌}
use lopper.Prelude.Sort.{sort_by, is_lt}
use lopper.Text.{Str, compare_str}
use lopper.Dict.{Dict, lookup}
use lopper.FeatureFlags.Flag.{Flag, unknown_feature, Checked}
use lopper.FeatureFlags.Registry.{Registry}
use lopper.FeatureFlags.Resolve.{
  ResolveOptions, FlagSet, resolve, lookup_in_set, or_false, is_enabled,
}

-- `ManifestEntry`.
pub record ManifestEntry : Type 0 where
  pub code : Str
  pub name : Str
  pub description : Str
  pub lifecycle : Str
  pub enabled_by_default : Bool

-- The loop of `Manifest`.
abbrev manifest_entries : FlagSet → List Flag → List ManifestEntry
manifest_entries resolved flags =
    map
      (λ flag. record {
        code = flag.code;
        name = flag.name;
        description = flag.description;
        lifecycle = flag.lifecycle;
        enabled_by_default = is_enabled resolved flag.code;
      })
      flags

-- `Manifest` of a registry that is not nil.
unfoldable pub manifest : Registry → ResolveOptions → Checked (List ManifestEntry)
manifest r opts = do
  resolved ← resolve r opts
  ok (sort_by (λ a b. is_lt (compare_str a.code b.code)) (manifest_entries resolved r.flags))

-- The loop of `EnabledCodes`.
unfoldable pub enabled_from : Dict Bool → List Str
enabled_from [] = []
enabled_from ((code, enabled) ∷ rest) =
    let later = enabled_from rest in if enabled then code ∷ later else later

-- `EnabledCodes`.
unfoldable pub enabled_codes : FlagSet → List Str
enabled_codes s = sort_by (λ a b. is_lt (compare_str a b)) (enabled_from s.enabled)

-- `EnabledFlag`.
unfoldable pub enabled_flag : FlagSet → Str → Checked Bool
enabled_flag s ref = elim (lookup_in_set s ref) [
  | none ↦ err (unknown_feature ref)
  | some flag ↦ ok (or_false (lookup flag.code s.enabled))
]

-- `DeprecatedReferences` and `Snapshot` copy; nil and empty are the empty list.
abbrev pub snapshot : FlagSet → Dict Bool
snapshot s = s.enabled
