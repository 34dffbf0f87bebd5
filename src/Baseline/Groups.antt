-- ===== src/Baseline/Groups.antt =====
-- internal/report/baseline_diff.go: the lists that are indexed by a key, over the sorted keys.
use lopper.Prelude.{
  ℕ, ◌+◌, ◌≡◌, refl, sym, ◌∙◌, ap, subst, Bool, true, not, ◌||◌, List, [], ◌∷◌, ◌++◌, arith, All,
  All-map, append-nil, append_assoc, if◌then◌else◌, Bool-cases, inl, inr, fun_ext,
}
use lopper.Prelude.Sort.{is_lt}
use lopper.Prelude.Sorted.{Pairwise, Pairwise-append, Pairwise-keep_if, any-sort_by, sort_by-keeps}
use lopper.Prelude.Counts.{total, keep_if, any-append}
use lopper.Text.{Str, str_eq, str_eq_iff, compare_str}
use lopper.Text.Ascending.{Differ, has}
use lopper.Dict.{Dict, lookup, insert, keys, has_key, has_value, lookup-insert, lookup-insert_self}
use lopper.Dict.Keyed.{has-keys, keys-found}
use lopper.Baseline.Pairing.{items_at, group_from, sorted_keys}

-- No key stands twice.
abbrev pub IsMap : {V : Type 0} → Dict V → Type 0
IsMap m = Pairwise Differ (keys m)

module _ {V : Type 0} where
  insert-Differ :
      (j k : Str) (v : V) (m : Dict V)
      → Differ j k
      → All (λ i. Differ j i) (keys m)
      → All (λ i. Differ j i) (keys (insert k v m))
  unfolding keys insert
  insert-Differ j k v [] d h = (d, tt)
  insert-Differ j k v ((i, w) ∷ m) d h = elim (Bool-cases (str_eq i k)) [
    | inl same ↦ rw same ((d, h.1))
    | inr other ↦ rw other ((h.0, insert-Differ j k v m d h.1))
  ]

  pub insert-IsMap : (k : Str) (v : V) (m : Dict V) → IsMap m → IsMap (insert k v m)
  unfolding keys insert
  insert-IsMap k v [] h = (tt, tt)
  insert-IsMap k v ((i, w) ∷ m) h = elim (Bool-cases (str_eq i k)) [
    | inl same ↦
        rw same ((subst (λ j. All (λ l. Differ j l) (keys m)) ((str_eq_iff i k).0 same) h.0, h.1))
    | inr other ↦ rw other ((insert-Differ i k v m other h.0, insert-IsMap k v m h.1))
  ]

module _ {A : Type 0} (key : A → Str) where
  -- The groups with one item more.
  abbrev with_item : Dict (List A) → A → Dict (List A)
  with_item groups item =
      insert (key item) (items_at (lookup (key item) groups) ++ item ∷ []) groups

  pub group_from-IsMap :
      (groups : Dict (List A)) (items : List A) → IsMap groups → IsMap (group_from key groups items)
  unfolding group_from
  group_from-IsMap groups [] h = h
  group_from-IsMap groups (item ∷ items) h =
      group_from-IsMap (with_item groups item) items (insert-IsMap (key item) _ groups h)

  -- The group of a key has the items of that key, in their order.
  lookup-group_from :
      (k : Str) (groups : Dict (List A)) (items : List A)
      → items_at (lookup k (group_from key groups items))
        ≡ items_at (lookup k groups) ++ keep_if (λ x. str_eq (key x) k) items
  unfolding group_from keep_if
  lookup-group_from k groups [] = sym (append-nil _)
  lookup-group_from k groups (item ∷ items) =
      let old = items_at (lookup (key item) groups) in
      let longer = insert (key item) (old ++ item ∷ []) groups in
      lookup-group_from k longer items
      ∙ (ap (λ found. items_at found ++ keep_if (λ x. str_eq (key x) k) items)
            (lookup-insert (key item) k (old ++ item ∷ []) groups)
          ∙ elim (Bool-cases (str_eq (key item) k)) [
            | inl same ↦ rw (same, (str_eq_iff (key item) k).0 same) (append_assoc _ (item ∷ []) _)
            | inr other ↦ rw other
          ])

  has_key-insert :
      (j k : Str) (v : List A) (m : Dict (List A))
      → has_key j m ≡ true
      → has_key j (insert k v m) ≡ true
  has_key-insert j k v m h = ground (arith, lookup-insert k j v m)

  has_key-group_from :
      (k : Str) (groups : Dict (List A)) (items : List A)
      → has_key k groups ≡ true
      → has_key k (group_from key groups items) ≡ true
  unfolding group_from
  has_key-group_from k groups [] h = h
  has_key-group_from k groups (item ∷ items) h =
      has_key-group_from k (with_item groups item) items (has_key-insert k (key item) _ groups h)

  -- Each item's key is in the map.
  grouped-has_key :
      (groups : Dict (List A)) (items : List A)
      → All (λ x. has_key (key x) (group_from key groups items) ≡ true) items
  unfolding group_from
  grouped-has_key groups [] = tt
  grouped-has_key groups (item ∷ items) = (
    has_key-group_from (key item) (with_item groups item) items
        (ap has_value (lookup-insert_self (key item) _ groups)),
    grouped-has_key (with_item groups item) items,
  )

total-none :
    (k : Str) (n : ℕ) (ks : List Str)
    → All (λ j. Differ k j) ks
    → total (λ j. if str_eq k j then n else 0) ks ≡ 0
unfolding total
total-none k n [] h = refl
total-none k n (j ∷ ks) h = ground (arith, total-none k n ks)

-- A term that one key of the list has counts once.
total-single :
    (k : Str) (n : ℕ) (ks : List Str)
    → Pairwise Differ ks
    → has k ks ≡ true
    → total (λ j. if str_eq k j then n else 0) ks ≡ n
unfolding total
total-single k n [] d h = cc
total-single k n (j ∷ ks) d h = elim (Bool-cases (str_eq k j)) [
  | inl same ↦
      let others = subst (λ i. All (λ l. Differ i l) ks) (sym ((str_eq_iff k j).0 same)) d.0 in
      rw same (omega (arith, total-none k n ks others))
  | inr other ↦
      let found : has k ks ≡ true = ground (arith, str_eq_iff j k, str_eq_iff k j) in
      rw other (omega (arith, total-single k n ks d.1 found))
]

module _ {A : Type 0} (key : A → Str) (f : A → ℕ) where
  total-step :
      (x : A) (xs : List A) (ks : List Str)
      → total (λ k. total f (keep_if (λ y. str_eq (key y) k) (x ∷ xs))) ks
        ≡ total (λ j. if str_eq (key x) j then f x else 0) ks
          + total (λ k. total f (keep_if (λ y. str_eq (key y) k) xs)) ks
  unfolding total keep_if
  total-step x xs [] = refl
  total-step x xs (k ∷ ks) = ground (arith, total-step x xs ks)

  -- Over a list of keys that has each key once, the groups have all the items.
  pub total-groups :
      (items : List A) (ks : List Str)
      → Pairwise Differ ks
      → All (λ x. has (key x) ks ≡ true) items
      → total (λ k. total f (keep_if (λ y. str_eq (key y) k) items)) ks ≡ total f items
  unfolding total keep_if
  total-groups [] [] d h = refl
  total-groups [] (k ∷ ks) d h = omega (arith, total-groups [] ks d.1 tt)
  total-groups (x ∷ xs) ks d h =
      omega
        (arith, total-step x xs ks, total-single (key x) (f x) ks d h.0, total-groups xs ks d h.1)

has-keep_if :
    (k : Str) (test : Str → Bool) (ks : List Str)
    → test k ≡ true
    → has k (keep_if test ks) ≡ has k ks
unfolding keep_if
has-keep_if k test [] h = refl
has-keep_if k test (j ∷ ks) h = ground (arith, has-keep_if k test ks, str_eq_iff j k)

-- The sorted keys of two maps.
module _ {A B : Type 0} (current : Dict A) (baseline : Dict B) where
  abbrev is_new : Str → Bool
  is_new key = not (has_key key current)

  -- A key is among the sorted keys where one of the maps has it.
  pub has-sorted_keys :
      (k : Str)
      → (has_key k current || has_key k baseline) ≡ true
      → has k (sorted_keys current baseline) ≡ true
  unfolding sorted_keys
  has-sorted_keys k h =
      any-sort_by (λ a b. is_lt (compare_str a b)) (λ item. str_eq item k)
        (keys current ++ keep_if is_new (keys baseline))
      ∙ ground (
        arith,
        any-append (λ item. str_eq item k) (keys current) (keep_if is_new (keys baseline)),
        has-keys k current,
        has-keys k baseline,
        has-keep_if k is_new (keys baseline),
      )

  new_differs :
      (j : Str) (ks : List Str)
      → has_key j current ≡ true
      → All (λ i. Differ j i) (keep_if is_new ks)
  unfolding keep_if
  new_differs j [] h = tt
  new_differs j (i ∷ ks) h = elim (Bool-cases (has_key i current)) [
    | inl old ↦ rw old (new_differs j ks h)
    | inr new ↦ rw new ((ground (arith, str_eq_iff j i), new_differs j ks h))
  ]

  pub sorted_keys-Differ :
      IsMap current → IsMap baseline → Pairwise Differ (sorted_keys current baseline)
  unfolding sorted_keys
  sorted_keys-Differ h k =
      sort_by-keeps (λ a b. is_lt (compare_str a b)) Differ
        (λ a b d. ground (arith, str_eq_iff a b, str_eq_iff b a))
        (keys current ++ keep_if is_new (keys baseline))
        (Pairwise-append Differ (keys current) (keep_if is_new (keys baseline)) h
          (Pairwise-keep_if Differ is_new (keys baseline) k)
          (All-map (λ j found. new_differs j (keys baseline) found) (keys current)
            (keys-found current)))

-- Over the sorted keys of two maps, the groups of either have all its items.
module _ {A : Type 0} (key : A → Str) (f : A → ℕ) (items others : List A) where
  abbrev groups : Dict (List A)
  groups = group_from key [] items

  abbrev other_groups : Dict (List A)
  other_groups = group_from key [] others

  total_of_groups :
      (ks : List Str)
      → Pairwise Differ ks
      → ((k : Str) → has_key k groups ≡ true → has k ks ≡ true)
      → total (λ k. total f (items_at (lookup k groups))) ks ≡ total f items
  unfolding lookup
  total_of_groups ks d h =
      ap (λ (g : Str → ℕ). total g ks)
        (fun_ext (λ k. ap (λ found. total f found) (lookup-group_from key k [] items)))
      ∙ total-groups key f items ks d
          (All-map (λ x found. h (key x) found) items (grouped-has_key key [] items))

  sorted_groups-Differ : Pairwise Differ (sorted_keys groups other_groups)
  unfolding keys
  sorted_groups-Differ =
      sorted_keys-Differ groups other_groups (group_from-IsMap key [] items tt)
        (group_from-IsMap key [] others tt)

  pub total-current_groups :
      total (λ k. total f (items_at (lookup k groups))) (sorted_keys groups other_groups)
      ≡ total f items
  total-current_groups =
      total_of_groups (sorted_keys groups other_groups) sorted_groups-Differ
        (λ k h. has-sorted_keys groups other_groups k (ground arith))

module _ {A : Type 0} (key : A → Str) (f : A → ℕ) (items others : List A) where
  pub total-baseline_groups :
      total
        (λ k. total f (items_at (lookup k (group_from key [] others))))
        (sorted_keys (group_from key [] items) (group_from key [] others))
      ≡ total f others
  total-baseline_groups =
      total_of_groups key f others items
        (sorted_keys (group_from key [] items) (group_from key [] others))
        (sorted_groups-Differ key f items others)
        (λ k h.
          has-sorted_keys (group_from key [] items) (group_from key [] others) k (ground arith))
