-- ===== src/Dict.antt =====
-- Go maps with string keys, as association lists: an assignment to a key that is there replaces its
-- value in place, any other goes to the end. No modelled result depends on the order of the keys
-- but where a definition says so.
pub mod Keyed
use lopper.Prelude.{
  ◌≡◌, refl, ◌↔◌, Bool, true, false, List, [], ◌∷◌, Option, none, some, arith, if◌then◌else◌,
}
use lopper.Text.{Str, str_eq, str_eq_iff, str_eq_refl}

abbrev pub Dict {ℓ} : Type ℓ → Type ℓ
Dict V = List (Str × V)

module _ {ℓ} {V : Type ℓ} where
  -- `v, ok := m[k]`
  unfoldable pub lookup : Str → Dict V → Option V
  lookup asked [] = none
  lookup asked ((there, value) ∷ rest) =
      if str_eq there asked then some value else lookup asked rest

  -- `m[k] = v`
  unfoldable pub insert : Str → V → Dict V → Dict V
  insert new value [] = (new, value) ∷ []
  insert new value ((there, old) ∷ rest) =
      if str_eq there new then (new, value) ∷ rest else (there, old) ∷ insert new value rest

  -- `_, ok := m[k]`
  abbrev pub has_value : Option V → Bool
  has_value none = false
  has_value (some _) = true

  abbrev pub has_key : Str → Dict V → Bool
  has_key k m = has_value (lookup k m)

  -- The values, in the order of the keys.
  unfoldable pub values : Dict V → List V
  values [] = []
  values ((k, v) ∷ m) = v ∷ values m

  -- The keys, in their order.
  unfoldable pub keys : Dict V → List Str
  keys [] = []
  keys ((k, v) ∷ m) = k ∷ keys m

  pub lookup-insert :
      (new asked : Str) (v : V) (dict : Dict V)
      → lookup asked (insert new v dict) ≡ (if str_eq new asked then some v else lookup asked dict)
  unfolding insert lookup
  lookup-insert new asked v [] = refl
  lookup-insert new asked v ((there, w) ∷ dict) = ground (
    arith,
    lookup-insert new asked v dict,
    str_eq_iff there asked,
    str_eq_iff there new,
    str_eq_iff new asked,
  )

  pub lookup-insert_self : (k : Str) (v : V) (m : Dict V) → lookup k (insert k v m) ≡ some v
  lookup-insert_self k v m = ground (arith, lookup-insert k k v m, str_eq_refl k)
