-- ===== src/FeatureFlags/Overrides.antt =====
-- `Resolve` of internal/featureflags/resolver.go: what decides whether a flag is enabled.
use lopper.Prelude.{
  ◌≡◌, refl, Bool, true, false, List, [], ◌∷◌, Option, some, arith, any, if◌then◌else◌, inl, inr,
}
use lopper.Prelude.Result.{ok, Result-cases}
use lopper.Text.{Str}
use lopper.Dict.{Dict, lookup, insert, lookup-insert}
use lopper.FeatureFlags.Flag.{contains}
use lopper.FeatureFlags.Registry.{Registry}
use lopper.FeatureFlags.Resolve.{
  Channel, normalize_channel, channel_defaults, apply_release_lock, DeprecatedReference,
  ResolveOptions, FlagSet, resolve_refs, assign_all, apply_explicit_overrides, resolve,
}

lookup-assign_all :
    (value : Bool) (codes : List Str) (c : Str) (m : Dict Bool)
    → lookup c (assign_all value codes m) ≡ (if contains c codes then some value else lookup c m)
unfolding assign_all
lookup-assign_all value [] c m = refl
lookup-assign_all value (code ∷ codes) c m =
    ground
      (arith, lookup-assign_all value codes c (insert code value m), lookup-insert code c value m)

-- The flag of a code after the overrides: what is switched off is off, what is switched on is on,
-- and the rest is as it was.
abbrev pub overridden : List Str → List Str → Str → Option Bool → Option Bool
overridden on off c before =
    if contains c off then some false else if contains c on then some true else before

overrides_lem :
    (r : Registry) (enabled final : Dict Bool) (enable disable on off : List Str)
    (d d' deprecations : List DeprecatedReference) (c : Str)
    → resolve_refs r enable ≡ ok (on, d)
    → resolve_refs r disable ≡ ok (off, d')
    → apply_explicit_overrides r enabled enable disable ≡ ok (final, deprecations)
    → (lookup c final ≡ overridden on off c (lookup c enabled))
      × (any (λ code. contains code off) on ≡ false)
unfolding apply_explicit_overrides
overrides_lem r enabled final enable disable on off d d' deprecations c p q h = ground (
  arith,
  lookup-assign_all false off c (assign_all true on enabled),
  lookup-assign_all true on c enabled,
)

-- If `Resolve` succeeds, and the references to enable and to disable stand for the codes `on` and
-- `off`, then no code is in both, and the flag of each code is off if it is in `off`, else on if it is
-- in `on`, else as the release lock and the channel's defaults leave it.
pub resolve-overridden :
    (r : Registry) (opts : ResolveOptions) (channel : Channel) (on off : List Str)
    (d d' : List DeprecatedReference) {s : FlagSet} (c : Str)
    → normalize_channel opts.channel ≡ ok channel
    → resolve_refs r opts.enable ≡ ok (on, d)
    → resolve_refs r opts.disable ≡ ok (off, d')
    → resolve r opts ≡ ok s
    → (lookup c s.enabled
        ≡ overridden on off c
            (lookup c (apply_release_lock r channel opts.lock (channel_defaults r channel))))
      × (any (λ code. contains code off) on ≡ false)
unfolding resolve
resolve-overridden r opts channel on off d d' c chosen p q h =
    let before = apply_release_lock r channel opts.lock (channel_defaults r channel) in
    elim (Result-cases (apply_explicit_overrides r before opts.enable opts.disable)) [
      | inl ((final, deprecations), applied) ↦ ground (
        arith,
        overrides_lem r before final opts.enable opts.disable on off d d' deprecations c p q
            applied,
      )
      | inr (e, failed) ↦ ground arith
    ]
