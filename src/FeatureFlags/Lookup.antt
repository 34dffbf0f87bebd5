-- ===== src/FeatureFlags/Lookup.antt =====
-- `LookupReference` of internal/featureflags/registry.go on the registries of `NewRegistry`.
use lopper.Prelude.{
  ◌≡◌, true, false, List, [], ◌∷◌, Option, none, some, arith, All, All-map, Option-cases, inl, inr,
}
use lopper.Prelude.Result.{ok, of_Ensures}
use lopper.Text.{Str, str_eq_iff}
use lopper.Dict.{lookup}
use lopper.FeatureFlags.Flag.{Flag}
use lopper.FeatureFlags.Registry.{Registry, LookupResult, lookup_reference, new_registry}
use lopper.FeatureFlags.Normal.{begins_with_l, IsCode, IsName}
use lopper.FeatureFlags.Registering.{IsListed, IsCovered, IsValid}
use lopper.FeatureFlags.Invariant.{new_registry-IsValid}

abbrev pub current : Flag → Str → LookupResult
current flag ref = record { flag = flag; reference = ref; deprecated = false; replacement_ref = [] }

abbrev pub outdated : Flag → Str → LookupResult
outdated flag ref = record {
  flag = flag;
  reference = ref;
  deprecated = true;
  replacement_ref = flag.name;
}

-- The references that lead to a flag, and the result of each.
pub record IsReachable (r : Registry) (flag : Flag) : Type 0 where
  pub by_code : lookup_reference r flag.code ≡ some (current flag flag.code)
  pub by_name : lookup_reference r flag.name ≡ some (current flag flag.name)
  pub by_deprecated_name :
      All (λ name. lookup_reference r name ≡ some (outdated flag name)) flag.deprecated_names

lookup-code :
    (r : Registry) (code : Str) (flag : Flag)
    → IsCode code
    → lookup code r.by_code ≡ some flag
    → lookup_reference r code ≡ some (current flag code)
unfolding lookup_reference
lookup-code r code flag (trimmed, nonempty, _) h = rw trimmed (ground (arith, str_eq_iff code []))

-- A name is no key of the map of codes.
not_a_code :
    (r : Registry) (name : Str)
    → IsCovered r
    → begins_with_l name ≡ false
    → lookup name r.by_code ≡ none
not_a_code r name v h = elim (Option-cases (lookup name r.by_code)) [
  | inl absent ↦ absent
  | inr (f, found) ↦ cc (v.codes name f found)
]

lookup-name :
    (r : Registry) (name : Str) (flag : Flag) (deprecation : Option Flag)
    → IsCovered r
    → IsName name
    → lookup name r.by_name ≡ some flag
    → lookup name r.deprecated_by_name ≡ deprecation
    → lookup_reference r name
      ≡ some (elim deprecation [ none ↦ current flag name | some _ ↦ outdated flag name ])
unfolding lookup_reference
lookup-name r name flag none v (trimmed, nonempty, begins) h k =
    rw trimmed (ground (arith, str_eq_iff name [], not_a_code r name v begins))
lookup-name r name flag (some f) v (trimmed, nonempty, begins) h k =
    rw trimmed (ground (arith, str_eq_iff name [], not_a_code r name v begins))

deprecated-lookups :
    (r : Registry) (flag : Flag) (names : List Str)
    → IsCovered r
    → All IsName names
    → All
        (λ name.
          (lookup name r.by_name ≡ some flag) × (lookup name r.deprecated_by_name ≡ some flag))
        names
    → All (λ name. lookup_reference r name ≡ some (outdated flag name)) names
deprecated-lookups r flag [] v n h = tt
deprecated-lookups r flag (name ∷ names) v n h = (
  lookup-name r name flag (some flag) v n.0 h.0.0 h.0.1,
  deprecated-lookups r flag names v n.1 h.1,
)

listed-IsReachable :
    (r : Registry) → IsCovered r → (flag : Flag) → IsListed r flag → IsReachable r flag
listed-IsReachable r v flag l = record {
  by_code = lookup-code r flag.code flag l.normal.code l.at_code;
  by_name = lookup-name r flag.name flag none v l.normal.name l.at_name l.not_deprecated;
  by_deprecated_name =
      deprecated-lookups r flag flag.deprecated_names v l.normal.deprecated l.at_deprecated;
}

-- In a registry that `NewRegistry` returns, each flag is what `LookupReference` finds for its code and
-- for its name, both as current references, and for each of its deprecated names, as a deprecated
-- reference that its name replaces.
pub new_registry-IsReachable :
    (flags : List Flag) {r : Registry} → new_registry flags ≡ ok r → All (IsReachable r) r.flags
new_registry-IsReachable flags {r} built =
    let v = of_Ensures IsValid _ (new_registry-IsValid flags) built in
    All-map (listed-IsReachable r v.covered) r.flags v.listed
