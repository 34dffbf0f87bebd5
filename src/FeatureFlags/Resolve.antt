-- ===== src/FeatureFlags/Resolve.antt =====
-- internal/featureflags/lock.go and resolver.go: release locks, and the resolution of a build's flags.
use lopper.Prelude.{
  Bool, true, false, not, ◌&&◌, ◌||◌, List, [], ◌∷◌, ◌++◌, Option, none, some, if◌then◌else◌, any,
}
use lopper.Prelude.Result.{ok, err, ◌>>=◌, ◌>>◌}
use lopper.Text.{Str, codes, str_eq, trim_space, to_lower}
use lopper.Dict.{Dict, lookup, insert}
use lopper.FeatureFlags.Flag.{
  Flag, invalid_channel, release_required, unknown_in_lock, duplicate_in_lock, unknown_note,
  unknown_feature, enabled_and_disabled, Checked, guard, lifecycle_stable, contains,
}
use lopper.FeatureFlags.Registry.{Registry, lookup_reference, lookup_flag}

-- `ReleaseLock`.
pub record ReleaseLock : Type 0 where
  pub release : Str
  pub default_on : List Str
  pub notes : Dict Str

-- `Channel`, as `NormalizeChannel` returns it.
pub data Channel : Type 0 where
  dev rolling release : Channel

-- `NormalizeChannel`.
unfoldable pub normalize_channel : Str → Checked Channel
normalize_channel value =
    let lowered = to_lower (trim_space value) in
    if str_eq lowered [] || str_eq lowered (codes "dev")
    then ok dev
    else if str_eq lowered (codes "rolling")
    then ok rolling
    else if str_eq lowered (codes "release")
    then ok release
    else err (invalid_channel value)

-- `normalizeRefs`.
unfoldable pub normalize_refs : List Str → List Str
normalize_refs [] = []
normalize_refs (ref ∷ refs) =
    let rest = normalize_refs refs in
    if str_eq (trim_space ref) [] then rest else trim_space ref ∷ rest

-- The loop of `ValidateReleaseLock` over the flags that are on by default.
unfoldable pub check_default_on : Registry → List Str → List Str → Checked (Unit {0})
check_default_on r seen [] = ok tt
check_default_on r seen (ref ∷ refs) = elim (lookup_flag r ref) [
  | none ↦ err (unknown_in_lock ref)
  | some flag ↦ do
    guard (not (contains flag.code seen)) (duplicate_in_lock ref)
    check_default_on r (flag.code ∷ seen) refs
]

unfoldable pub check_notes : Registry → Dict Str → Checked (Unit {0})
check_notes r [] = ok tt
check_notes r ((ref, _) ∷ notes) = elim (lookup_flag r ref) [
  | none ↦ err (unknown_note ref)
  | some _ ↦ check_notes r notes
]

-- `ValidateReleaseLock`.
unfoldable pub validate_release_lock : Registry → Option ReleaseLock → Checked (Unit {0})
validate_release_lock r none = ok tt
validate_release_lock r (some lock) = do
  guard (not (str_eq (trim_space lock.release) [])) release_required
  check_default_on r [] lock.default_on
  check_notes r lock.notes

-- `DeprecatedReference`.
pub record DeprecatedReference : Type 0 where
  pub code : Str
  pub name : Str
  pub replacement : Str

-- `ResolveOptions`; the channel is the text that `NormalizeChannel` reads.
pub record ResolveOptions : Type 0 where
  pub channel : Str
  pub lock : Option ReleaseLock
  pub enable : List Str
  pub disable : List Str

-- `Set`.
pub record FlagSet : Type 0 where
  pub enabled : Dict Bool
  pub by_code : Dict Flag
  pub by_name : Dict Flag
  pub deprecations : List DeprecatedReference

abbrev is_rolling : Channel → Bool
is_rolling rolling = true
is_rolling _ = false

-- `channelDefaults`.
unfoldable pub defaults_from : Channel → List Flag → Dict Bool → Dict Bool
defaults_from channel [] enabled = enabled
defaults_from channel (flag ∷ flags) enabled =
    defaults_from channel flags
      (insert flag.code (is_rolling channel || str_eq flag.lifecycle lifecycle_stable) enabled)

abbrev pub channel_defaults : Registry → Channel → Dict Bool
channel_defaults r channel = defaults_from channel r.flags []

-- The loop of `applyReleaseLockDefaults`. A reference that is not found has the empty code.
unfoldable pub switch_on : Registry → List Str → Dict Bool → Dict Bool
switch_on r [] enabled = enabled
switch_on r (ref ∷ refs) enabled = elim (lookup_flag r ref) [
  | none ↦ switch_on r refs (insert [] true enabled)
  | some flag ↦ switch_on r refs (insert flag.code true enabled)
]

-- `applyReleaseLockDefaults`.
unfoldable pub apply_release_lock : Registry → Channel → Option ReleaseLock → Dict Bool → Dict Bool
apply_release_lock r release (some lock) enabled = switch_on r lock.default_on enabled
apply_release_lock r _ _ enabled = enabled

-- The loop of `resolveRefs`: the codes, which are the keys of a map, and the deprecated references.
unfoldable pub resolve_normalized :
    Registry → List Str → Checked (List Str × List DeprecatedReference)
resolve_normalized r [] = ok ([], [])
resolve_normalized r (ref ∷ refs) = elim (lookup_reference r ref) [
  | none ↦ err (unknown_feature ref)
  | some result ↦ do
    (codes_later, deprecations) ← resolve_normalized r refs
    ok (
      result.flag.code ∷ codes_later,
      (if result.deprecated
          then record {
            code = result.flag.code;
            name = result.reference;
            replacement = result.replacement_ref;
          }
            ∷ deprecations
          else deprecations),
    )
]

-- `resolveRefs`.
abbrev pub resolve_refs : Registry → List Str → Checked (List Str × List DeprecatedReference)
resolve_refs r refs = resolve_normalized r (normalize_refs refs)

-- The assignment of one value at every key of a set.
unfoldable pub assign_all : Bool → List Str → Dict Bool → Dict Bool
assign_all value [] enabled = enabled
assign_all value (code ∷ rest) enabled = assign_all value rest (insert code value enabled)

abbrev same_reference : DeprecatedReference → DeprecatedReference → Bool
same_reference a b = str_eq a.code b.code && str_eq a.name b.name

-- `mergeDeprecatedReferences`; `kept` is both `seen` and `merged`.
unfoldable pub merge_deprecated :
    List DeprecatedReference → List DeprecatedReference → List DeprecatedReference
merge_deprecated kept [] = kept
merge_deprecated kept (ref ∷ refs) =
    merge_deprecated (if any (same_reference ref) kept then kept else kept ++ ref ∷ []) refs

-- `applyExplicitOverrides`: the map of enabled flags and the deprecated references.
unfoldable pub apply_explicit_overrides :
    Registry → Dict Bool → List Str → List Str → Checked (Dict Bool × List DeprecatedReference)
apply_explicit_overrides r enabled enable disable = do
  (on, on_deprecations) ← resolve_refs r enable
  (off, off_deprecations) ← resolve_refs r disable
  guard (not (any (λ code. contains code off) on)) enabled_and_disabled
  ok (
    assign_all false off (assign_all true on enabled),
    merge_deprecated [] (on_deprecations ++ off_deprecations),
  )

-- `Resolve` of a registry that is not nil.
unfoldable pub resolve : Registry → ResolveOptions → Checked FlagSet
resolve r opts = do
  channel ← normalize_channel opts.channel
  validate_release_lock r opts.lock
  let enabled = apply_release_lock r channel opts.lock (channel_defaults r channel)
  (final, deprecations) ← apply_explicit_overrides r enabled opts.enable opts.disable
  ok (record {
    enabled = final;
    by_code = r.by_code;
    by_name = r.by_name;
    deprecations = deprecations;
  })

-- `lookup` of a set.
unfoldable pub lookup_in_set : FlagSet → Str → Option Flag
lookup_in_set s ref = elim (lookup (trim_space ref) s.by_code) [
  | some flag ↦ some flag
  | none ↦ lookup (trim_space ref) s.by_name
]

-- A Go map of `bool` gives false at a missing key.
abbrev pub or_false : Option Bool → Bool
or_false none = false
or_false (some b) = b

-- `Enabled`.
unfoldable pub is_enabled : FlagSet → Str → Bool
is_enabled s ref = elim (lookup_in_set s ref) [
  | none ↦ false
  | some flag ↦ or_false (lookup flag.code s.enabled)
]
