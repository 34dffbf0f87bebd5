-- ===== src/FeatureFlags/Invariant.antt =====
-- The maps of a registry of internal/featureflags/registry.go agree with its list of flags.
use lopper.Prelude.{
  ◌≡◌, refl, sym, ◌∙◌, ap, subst, false, List, [], ◌∷◌, ◌++◌, none, arith, All, All-map, not,
}
use lopper.Prelude.Result.{ok, Ensures, Ensures-bind, Ensures-map, of_Ensures}
use lopper.Prelude.Sort.{All-sort_by}
use lopper.Text.{Str, str_eq_iff}
use lopper.Dict.{Dict, lookup, insert, has_key, lookup-insert, lookup-insert_self}
use lopper.FeatureFlags.Flag.{Flag, guard, duplicate_code, normalize_flag}
use lopper.FeatureFlags.Registry.{
  Registry, empty_registry, register_feature_name, register_deprecated, add_flag, add_flags,
  earlier_code, new_registry,
}
use lopper.FeatureFlags.Normal.{IsNormal, normalize_flag-IsNormal, All-append}
use lopper.FeatureFlags.Registering.{
  IsListed, IsCovered, IsValid, Grows, Grows-trans, Grows-IsListed, Registered, register-Registered,
  AllRegistered, register_deprecated-AllRegistered,
}

-- The registry between the two loops over the names of a flag.
abbrev with_code : Flag → Registry → Registry
with_code flag named = record named {
  flags = named.flags ++ flag ∷ [];
  by_code = insert flag.code flag named.by_code;
}

with_code-Grows :
    (flag : Flag) (named : Registry)
    → lookup flag.code named.by_code ≡ none
    → Grows named (with_code flag named)
with_code-Grows flag named fresh = record {
  codes = λ k f e.
      ground (arith, fresh, lookup-insert flag.code k flag named.by_code, str_eq_iff flag.code k);
  names = λ k f e. (e, refl);
}

with_code-IsCovered :
    (flag : Flag) (named : Registry)
    → IsNormal flag
    → IsCovered named
    → IsCovered (with_code flag named)
with_code-IsCovered flag named n v = record {
  names = v.names;
  codes = λ k f e. ground (
    arith,
    n.code.2,
    v.codes k f,
    lookup-insert flag.code k flag named.by_code,
    str_eq_iff flag.code k,
  );
}

fresh_code :
    (code : Str) (m : Dict Flag) {u : Unit {0}}
    → guard (not (has_key code m)) (duplicate_code code) ≡ ok u
    → lookup code m ≡ none
fresh_code code m h = ground arith

module _ (flag : Flag) (r named r' : Registry) (n : IsNormal flag)
    (first : Registered flag.name flag false r named)
    (fresh : lookup flag.code named.by_code ≡ none)
    (rest : AllRegistered flag flag.deprecated_names (with_code flag named) r') where
  added-Grows : Grows named r'
  added-Grows = Grows-trans (with_code-Grows flag named fresh) rest.grows

  added-IsListed : IsListed r' flag
  added-IsListed =
      let (found, same) = added-Grows.names flag.name flag first.at_name in
      record {
        normal = n;
        at_code = rest.grows.codes flag.code flag (lookup-insert_self flag.code flag named.by_code);
        at_name = found;
        not_deprecated = same ∙ first.at_deprecated;
        at_deprecated = rest.at_deprecated;
      }

  added-IsValid : All (IsListed r) r.flags → IsValid r'
  added-IsValid listed = record {
    covered = rest.covered;
    listed =
        subst (All (IsListed r'))
          (sym (rest.same_flags ∙ ap (λ fs. fs ++ flag ∷ []) first.same_flags))
          (All-append (IsListed r') r.flags flag
            (All-map (Grows-IsListed (Grows-trans first.grows added-Grows)) r.flags listed)
            added-IsListed);
  }

add_flag-IsValid :
    (flag : Flag) (r : Registry) → IsNormal flag → IsValid r → Ensures IsValid (add_flag flag r)
unfolding add_flag
add_flag-IsValid flag r n v =
    Ensures-bind IsValid (guard (not (has_key flag.code r.by_code)) _) _ λ _ free.
      Ensures-bind IsValid (register_feature_name flag.name flag false r) _ λ named done.
        let first =
          of_Ensures (Registered flag.name flag false r) _
            (register-Registered flag.name flag false r v.covered) done in
        let fresh = ap (lookup flag.code) first.same_codes ∙ fresh_code flag.code r.by_code free in
        Ensures-map (register_deprecated flag flag.deprecated_names (with_code flag named))
          (λ r' rest. added-IsValid flag r named r' n first fresh rest v.listed)
          (register_deprecated-AllRegistered flag flag.deprecated_names (with_code flag named)
            (with_code-IsCovered flag named n first.covered))

add_flags-IsValid :
    (flags : List Flag) (r : Registry) → IsValid r → Ensures IsValid (add_flags flags r)
unfolding add_flags
add_flags-IsValid [] r v = v
add_flags-IsValid (flag ∷ flags) r v =
    Ensures-bind IsValid (normalize_flag flag) _ λ normal accepted.
      Ensures-bind IsValid (add_flag normal r) _ λ r' added. add_flags-IsValid flags r' (
        of_Ensures IsValid _
          (add_flag-IsValid normal r (of_Ensures IsNormal _ (normalize_flag-IsNormal flag) accepted)
            v)
          added)

empty-IsValid : IsValid empty_registry
unfolding lookup
empty-IsValid = record {
  covered = record { names = λ k e. refl; codes = λ k f e. cc };
  listed = tt;
}

-- Every registry that `NewRegistry` returns is valid: its maps find each of its flags by the code,
-- by the name, which is not deprecated, and by each deprecated name.
pub new_registry-IsValid : (flags : List Flag) → Ensures IsValid (new_registry flags)
unfolding new_registry
new_registry-IsValid flags = Ensures-bind IsValid (add_flags flags empty_registry) _ λ r built.
    let v = of_Ensures IsValid _ (add_flags-IsValid flags empty_registry empty-IsValid) built in
    record {
      covered = record { names = v.covered.names; codes = v.covered.codes };
      listed = All-sort_by _ earlier_code r.flags (
          All-map (Grows-IsListed (record { codes = λ k f e. e; names = λ k f e. (e, refl) }))
            r.flags v.listed);
    }
