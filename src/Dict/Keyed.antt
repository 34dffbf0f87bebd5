-- ===== src/Dict/Keyed.antt =====
-- Maps whose keys are computed from their values, as those of the merges.
use lopper.Prelude.{
  ◌≡◌, refl, sym, ◌∙◌, true, [], ◌∷◌, none, some, arith, any, All, All-map, Bool-cases, inl, inr,
}
use lopper.Text.{Str, str_eq, str_eq_iff, str_eq_refl}
use lopper.Dict.{Dict, lookup, insert, keys, has_key, values, lookup-insert}
use lopper.Prelude.Sorted.{Pairwise}
use lopper.Text.Ascending.{Differ, has, All-of_has}

module _ {V : Type 0} (key : V → Str) where
  -- Every value stands at its own key, and no key stands twice.
  abbrev pub IsKeyed : Dict V → Type 0
  IsKeyed [] = Unit
  IsKeyed ((k, v) ∷ m) = (key v ≡ k) × (lookup k m ≡ none) × IsKeyed m

  pub insert-IsKeyed :
      (k : Str) (v : V) (m : Dict V) → key v ≡ k → IsKeyed m → IsKeyed (insert k v m)
  unfolding insert lookup
  insert-IsKeyed k v [] e h = (e, refl, tt)
  insert-IsKeyed k v ((j, w) ∷ m) e h = elim (Bool-cases (str_eq j k)) [
    | inl same ↦ rw same ((e, ground (arith, str_eq_iff j k), h.2))
    | inr other ↦ rw other (
        (
          h.0,
          ground (arith, lookup-insert k j v m, str_eq_iff k j, str_eq_iff j k),
          insert-IsKeyed k v m e h.2,
        ))
  ]

  found_behind :
      (j : Str) (w : V) (m : Dict V) (a : V)
      → lookup j m ≡ none
      → lookup (key a) m ≡ some a
      → lookup (key a) ((j, w) ∷ m) ≡ some a
  unfolding lookup
  found_behind j w m a h k = ground (arith, str_eq_iff j (key a))

  -- Every value is what its key finds.
  pub values-found : (m : Dict V) → IsKeyed m → All (λ a. lookup (key a) m ≡ some a) (values m)
  unfolding values lookup
  values-found [] h = tt
  values-found ((j, w) ∷ m) h = (
    ground (arith, str_eq_iff j (key w), str_eq_refl j),
    All-map (λ a. found_behind j w m a h.1) (values m) (values-found m h.2),
  )

  -- A value has a key exactly if a lookup finds one there.
  pub any_key-values :
      (k : Str) (m : Dict V) → IsKeyed m → any (λ v. str_eq (key v) k) (values m) ≡ has_key k m
  unfolding values lookup
  any_key-values k [] h = refl
  any_key-values k ((j, w) ∷ m) h = ground (arith, any_key-values k m h.2)

  -- Two such values with one key are one value.
  pub same_of_key :
      (m : Dict V) (a b : V)
      → lookup (key a) m ≡ some a
      → lookup (key b) m ≡ some b
      → key a ≡ key b
      → a ≡ b
  same_of_key m a b h k e = ground arith

  other_keys : (k : Str) (m : Dict V) → lookup k m ≡ none → All (λ j. Differ k j) (keys m)
  unfolding lookup keys
  other_keys k [] h = tt
  other_keys k ((j, w) ∷ m) h =
      (ground (arith, str_eq_iff k j, str_eq_iff j k), other_keys k m (ground arith))

  -- No key stands twice.
  pub keys-Differ : (m : Dict V) → IsKeyed m → Pairwise Differ (keys m)
  unfolding keys
  keys-Differ [] h = tt
  keys-Differ ((j, w) ∷ m) h = (other_keys j m h.1, keys-Differ m h.2)

  -- A value that a key finds has that key.
  pub key_of_found : (k : Str) (v : V) (m : Dict V) → IsKeyed m → lookup k m ≡ some v → key v ≡ k
  unfolding lookup
  key_of_found k v [] h e = cc
  key_of_found k v ((j, w) ∷ m) h e = elim (Bool-cases (str_eq j k)) [
    | inl same ↦ ground (arith, str_eq_iff j k)
    | inr other ↦ key_of_found k v m h.2 (rw other at e)
  ]

-- The keys are those that a lookup finds.
module _ {V : Type 0} where
  pub has-keys : (k : Str) (m : Dict V) → has k (keys m) ≡ has_key k m
  unfolding keys lookup
  has-keys k [] = refl
  has-keys k ((j, v) ∷ m) = ground (arith, has-keys k m)

  pub keys-found : (m : Dict V) → All (λ k. has_key k m ≡ true) (keys m)
  keys-found m = All-of_has (λ k. has_key k m ≡ true) (keys m) (λ k h. sym (has-keys k m) ∙ h)
