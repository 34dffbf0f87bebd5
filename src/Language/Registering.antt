-- ===== src/Language/Registering.antt =====
-- `Register` of internal/language/registry.go: what the registry finds afterwards.
use lopper.Prelude.{
  ◌≡◌, refl, Bool, true, false, List, [], ◌∷◌, none, some, arith, any, Bool-cases, inl, inr,
  if◌then◌else◌, ◌⊎◌,
}
use lopper.Prelude.Result.{ok, Result-cases}
use lopper.Text.{Str, str_eq, str_eq_iff}
use lopper.Dict.{lookup, insert, lookup-insert}
use lopper.Language.Adapter.{Adapter}
use lopper.Language.Registry.{Adapters, normalize_id, check_ids, register_ids, register}

-- Some ID of the list is registered under the key.
abbrev pub names : Str → List Str → Bool
names key ids = any (λ id. str_eq (normalize_id id) key) ids

lookup-register_ids :
    (adapter : Adapter) (ids : List Str) (adapters : Adapters) (key : Str)
    → lookup key (register_ids adapter ids adapters)
      ≡ (if names key ids then some adapter else lookup key adapters)
unfolding register_ids
lookup-register_ids adapter [] adapters key = refl
lookup-register_ids adapter (id ∷ ids) adapters key = ground (
  arith,
  lookup-register_ids adapter ids (insert (normalize_id id) adapter adapters) key,
  lookup-insert (normalize_id id) key adapter adapters,
)

check_ids-free :
    (adapters : Adapters) (ids : List Str) (key : Str)
    → check_ids adapters ids ≡ ok tt
    → names key ids ≡ true
    → lookup key adapters ≡ none
unfolding check_ids
check_ids-free adapters [] key h k = cc
check_ids-free adapters (id ∷ ids) key h k =
    ground (arith, check_ids-free adapters ids key, str_eq_iff (normalize_id id) key)

-- A registration that succeeds adds the adapter under its own ID and its aliases and nothing else,
-- and takes no key from an adapter that is registered already.
pub register_lem :
    (adapter : Adapter) (adapters after : Adapters) (key : Str)
    → register (some adapter) adapters ≡ ok after
    → (lookup key after
        ≡ (if names key (adapter.id ∷ adapter.aliases) then some adapter else lookup key adapters))
      × ((names key (adapter.id ∷ adapter.aliases) ≡ false) ⊎ (lookup key adapters ≡ none))
unfolding register
register_lem adapter adapters after key h =
    let ids = adapter.id ∷ adapter.aliases in
    elim (Result-cases (check_ids adapters ids)) [
      | inr (e, p) ↦ absurd (ground arith)
      | inl (free, p) ↦ (
        ground (arith, lookup-register_ids adapter ids adapters key),
        elim (Bool-cases (names key ids)) [
          | inl named ↦ inr (check_ids-free adapters ids key p named)
          | inr other ↦ inl other
        ],
      )
    ]
