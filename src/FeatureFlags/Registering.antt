-- ===== src/FeatureFlags/Registering.antt =====
-- What registering the names of a flag does to a registry of internal/featureflags/registry.go.
use lopper.Prelude.{
  ◌≡◌, refl, ◌∙◌, Bool, true, false, List, [], ◌∷◌, none, some, arith, All, All-map, if◌then◌else◌,
  if_cases,
}
use lopper.Prelude.Result.{Ensures, Ensures-bind, of_Ensures, Ensures-map}
use lopper.Text.{Str, str_eq, str_eq_iff, str_eq_refl}
use lopper.Dict.{Dict, lookup, insert, has_key, lookup-insert, lookup-insert_self}
use lopper.FeatureFlags.Flag.{Flag}
use lopper.FeatureFlags.Registry.{Registry, register_feature_name, register_deprecated}
use lopper.FeatureFlags.Normal.{begins_with_l, IsNormal}

-- What the maps say of a flag of the registry.
pub record IsListed (r : Registry) (flag : Flag) : Type 0 where
  pub normal : IsNormal flag
  pub at_code : lookup flag.code r.by_code ≡ some flag
  pub at_name : lookup flag.name r.by_name ≡ some flag
  pub not_deprecated : lookup flag.name r.deprecated_by_name ≡ none
  pub at_deprecated :
      All
        (λ name.
          (lookup name r.by_name ≡ some flag) × (lookup name r.deprecated_by_name ≡ some flag))
        flag.deprecated_names

-- A deprecated name is a name, and a key of the map of codes looks like a code.
pub record IsCovered (r : Registry) : Type 0 where
  pub names : (k : Str) → lookup k r.by_name ≡ none → lookup k r.deprecated_by_name ≡ none
  pub codes : (k : Str) (f : Flag) → lookup k r.by_code ≡ some f → begins_with_l k ≡ true

pub record IsValid (r : Registry) : Type 0 where
  pub covered : IsCovered r
  pub listed : All (IsListed r) r.flags

-- Nothing that a lookup finds is lost.
pub record Grows (r r' : Registry) : Type 0 where
  pub codes : (k : Str) (f : Flag) → lookup k r.by_code ≡ some f → lookup k r'.by_code ≡ some f
  pub names :
      (k : Str) (f : Flag)
      → lookup k r.by_name ≡ some f
      → (lookup k r'.by_name ≡ some f)
        × (lookup k r'.deprecated_by_name ≡ lookup k r.deprecated_by_name)

pub Grows-trans : {r s t : Registry} → Grows r s → Grows s t → Grows r t
Grows-trans g h = record {
  codes = λ k f e. h.codes k f (g.codes k f e);
  names = λ k f e.
      let (found, same) = g.names k f e in
      let (found', same') = h.names k f found in (found', same' ∙ same);
}

pub Grows-IsListed :
    {r r' : Registry} → Grows r r' → (flag : Flag) → IsListed r flag → IsListed r' flag
Grows-IsListed g flag l = record {
  normal = l.normal;
  at_code = g.codes flag.code flag l.at_code;
  at_name = (g.names flag.name flag l.at_name).0;
  not_deprecated = (g.names flag.name flag l.at_name).1 ∙ l.not_deprecated;
  at_deprecated =
      All-map (λ name h. ((g.names name flag h.0).0, (g.names name flag h.0).1 ∙ h.1))
        flag.deprecated_names l.at_deprecated;
}

-- The registry after `registerFeatureName`.
pub record Registered (name : Str) (flag : Flag) (deprecated : Bool) (r r' : Registry)
    : Type 0 where
  pub grows : Grows r r'
  pub covered : IsCovered r'
  pub same_flags : r'.flags ≡ r.flags
  pub same_codes : r'.by_code ≡ r.by_code
  pub at_name : lookup name r'.by_name ≡ some flag
  pub at_deprecated : lookup name r'.deprecated_by_name ≡ (if deprecated then some flag else none)

lookup-insert_if :
    (deprecated : Bool) (name k : Str) (flag : Flag) (m : Dict Flag)
    → lookup k (if deprecated then insert name flag m else m)
      ≡ (if deprecated then if str_eq name k then some flag else lookup k m else lookup k m)
lookup-insert_if true name k flag m = lookup-insert name k flag m
lookup-insert_if false name k flag m = refl

pub none_of_free : (name : Str) (m : Dict Flag) → has_key name m ≡ false → lookup name m ≡ none
none_of_free name m h = ground arith

pub register-Registered :
    (name : Str) (flag : Flag) (deprecated : Bool) (r : Registry)
    → IsCovered r
    → Ensures (Registered name flag deprecated r) (register_feature_name name flag deprecated r)
unfolding register_feature_name
register-Registered name flag deprecated r v =
    if_cases (Ensures (Registered name flag deprecated r)) (has_key name r.by_name) _ _ (λ _. tt)
      λ free.
        let fresh = none_of_free name r.by_name free in
        let unseen = v.names name fresh in
        record {
          grows = record {
            codes = λ k f e. e;
            names = λ k f e. ground (
              arith,
              fresh,
              lookup-insert name k flag r.by_name,
              lookup-insert_if deprecated name k flag r.deprecated_by_name,
              str_eq_iff name k,
            );
          };
          covered = record {
            names = λ k e. ground (
              arith,
              v.names k,
              lookup-insert name k flag r.by_name,
              lookup-insert_if deprecated name k flag r.deprecated_by_name,
            );
            codes = v.codes;
          };
          same_flags = refl;
          same_codes = refl;
          at_name = lookup-insert_self name flag r.by_name;
          at_deprecated = ground (
            arith,
            unseen,
            lookup-insert_if deprecated name name flag r.deprecated_by_name,
            str_eq_refl name,
          );
        }

-- The registry after the loop over the deprecated names.
pub record AllRegistered (flag : Flag) (names : List Str) (r r' : Registry) : Type 0 where
  pub grows : Grows r r'
  pub covered : IsCovered r'
  pub same_flags : r'.flags ≡ r.flags
  pub at_deprecated :
      All
        (λ name.
          (lookup name r'.by_name ≡ some flag) × (lookup name r'.deprecated_by_name ≡ some flag))
        names

pub register_deprecated-AllRegistered :
    (flag : Flag) (names : List Str) (r : Registry)
    → IsCovered r
    → Ensures (AllRegistered flag names r) (register_deprecated flag names r)
unfolding register_deprecated
register_deprecated-AllRegistered flag [] r v = record {
  grows = record { codes = λ k f e. e; names = λ k f e. (e, refl) };
  covered = v;
  same_flags = refl;
  at_deprecated = tt;
}
register_deprecated-AllRegistered flag (name ∷ names) r v =
    Ensures-bind (AllRegistered flag (name ∷ names) r) (register_feature_name name flag true r) _
      λ r₁ done.
        let first =
          of_Ensures (Registered name flag true r) _ (register-Registered name flag true r v)
            done in
        Ensures-map (register_deprecated flag names r₁)
          (λ r₂ rest.
            let (found, same) = rest.grows.names name flag first.at_name in
            record {
              grows = Grows-trans first.grows rest.grows;
              covered = rest.covered;
              same_flags = rest.same_flags ∙ first.same_flags;
              at_deprecated = ((found, same ∙ first.at_deprecated), rest.at_deprecated);
            })
          (register_deprecated-AllRegistered flag names r₁ first.covered)
