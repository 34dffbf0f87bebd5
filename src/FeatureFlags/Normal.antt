-- ===== src/FeatureFlags/Normal.antt =====
-- What `normalizeFlag` of internal/featureflags/registry.go ensures of the flags that it accepts.
use lopper.Prelude.{
  ℕ, ◌≡◌, ◌≢◌, Bool, true, false, List, [], ◌∷◌, ◌++◌, arith, All, not, if_cases, ◌==◌,
}
use lopper.Prelude.Result.{ok, Ensures, Ensures-bind, of_Ensures}
use lopper.Text.{Str, str_eq, trim_space, has_prefix}
use lopper.Text.Trim.{trim_space_idem}
use lopper.FeatureFlags.Flag.{
  Flag, feature_code_number, validate_feature_code, check_name_runes, validate_feature_name,
  normalize_deprecated_from, normalize_deprecated_names, normalize_lifecycle,
  normalize_stable_release, normalize_flag, Checked, guard, contains,
}

-- A code begins with a capital L, and a name does not.
abbrev pub begins_with_l : Str → Bool
begins_with_l [] = false
begins_with_l (c ∷ s) = c == b'L'

abbrev pub IsCode : Str → Type 0
IsCode code = (trim_space code ≡ code) × (code ≢ []) × (begins_with_l code ≡ true)

abbrev pub IsName : Str → Type 0
IsName name = (trim_space name ≡ name) × (name ≢ []) × (begins_with_l name ≡ false)

pub record IsNormal (flag : Flag) : Type 0 where
  pub code : IsCode flag.code
  pub name : IsName flag.name
  pub deprecated : All IsName flag.deprecated_names

validated_begins : (code : Str) → validate_feature_code code ≡ ok tt → begins_with_l code ≡ true
unfolding validate_feature_code feature_code_number has_prefix
validated_begins [] h = ground arith
validated_begins (c ∷ s) h = ground arith

ne_nil_of_begins : (code : Str) → begins_with_l code ≡ true → code ≢ []
ne_nil_of_begins [] h = λ e. cc
ne_nil_of_begins (c ∷ s) h = λ e. cc

validate-IsCode :
    (code : Str) → validate_feature_code (trim_space code) ≡ ok tt → IsCode (trim_space code)
validate-IsCode code h =
    let begins = validated_begins (trim_space code) h in
    (trim_space_idem code, ne_nil_of_begins (trim_space code) begins, begins)

check_first :
    (name : Str) (c : ℕ) (s : Str)
    → check_name_runes name (c ∷ s) ≡ ok tt
    → begins_with_l (c ∷ s) ≡ false
unfolding check_name_runes
check_first name c s h = ground arith

validate_begins :
    (name : Str) → validate_feature_name name ≡ ok tt → (name ≢ []) × (begins_with_l name ≡ false)
unfolding validate_feature_name str_eq
validate_begins [] h = ground arith
validate_begins (c ∷ s) h = ((λ e. cc), check_first (c ∷ s) c s h)

validate-IsName :
    (name : Str) → validate_feature_name (trim_space name) ≡ ok tt → IsName (trim_space name)
validate-IsName name h = (
  trim_space_idem name,
  (validate_begins (trim_space name) h).0,
  (validate_begins (trim_space name) h).1,
)

unit_ok : {m : Checked (Unit {0})} {u : Unit {0}} → m ≡ ok u → m ≡ ok tt
unit_ok h = h

pub All-append {ℓ} :
    {A : Type ℓ} (P : A → Type 0) (xs : List A) (y : A) → All P xs → P y → All P (xs ++ y ∷ [])
All-append P [] y h k = (k, tt)
All-append P (x ∷ xs) y h k = (h.0, All-append P xs y h.1 k)

deprecated-IsName :
    (canonical : Str) (kept names : List Str)
    → All IsName kept
    → Ensures (All IsName) (normalize_deprecated_from canonical kept names)
unfolding normalize_deprecated_from
deprecated-IsName canonical kept [] h = h
deprecated-IsName canonical kept (name ∷ names) h =
    let skip = deprecated-IsName canonical kept names h in
    if_cases (Ensures (All IsName)) (str_eq (trim_space name) []) _ _ (λ _. skip)
      λ _. Ensures-bind (All IsName) (validate_feature_name (trim_space name)) _ λ _ valid.
        Ensures-bind (All IsName) (guard (not (str_eq (trim_space name) canonical)) _) _ λ _ _.
          if_cases (Ensures (All IsName)) (contains (trim_space name) kept) _ _ (λ _. skip)
            λ _.
              deprecated-IsName canonical (kept ++ trim_space name ∷ []) names
                (All-append IsName kept (trim_space name) h (validate-IsName name (unit_ok valid)))

pub normalize_flag-IsNormal : (flag : Flag) → Ensures IsNormal (normalize_flag flag)
unfolding normalize_flag normalize_deprecated_names
normalize_flag-IsNormal flag =
    Ensures-bind IsNormal (validate_feature_code (trim_space flag.code)) _ λ _ code.
      Ensures-bind IsNormal (validate_feature_name (trim_space flag.name)) _ λ _ name.
        Ensures-bind IsNormal
          (normalize_deprecated_from (trim_space flag.name) [] flag.deprecated_names) _
          λ names deprecated. Ensures-bind IsNormal (normalize_lifecycle flag.lifecycle) _ λ _ _.
            Ensures-bind IsNormal (normalize_stable_release flag.first_stable_release) _ λ _ _.
              record {
                code = validate-IsCode flag.code (unit_ok code);
                name = validate-IsName flag.name (unit_ok name);
                deprecated =
                    of_Ensures (All IsName) _
                      (deprecated-IsName (trim_space flag.name) [] flag.deprecated_names tt)
                      deprecated;
              }
