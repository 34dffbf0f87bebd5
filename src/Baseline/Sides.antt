-- ===== src/Baseline/Sides.antt =====
-- internal/report/baseline_diff.go: the slots on each side of the pairs of one key.
use lopper.Prelude.{
  ℕ, ◌+◌, ◌≤◌, ◌<◌, ◌≡◌, Bool, not, List, [], ◌∷◌, ◌++◌, Option, arith, All, if_cases,
}
use lopper.Prelude.Sorted.{Pairwise}
use lopper.Prelude.Counts.{total, total-append, total-keep_if, keep_if}
use lopper.Text.{Str}
use lopper.Dict.{Dict, lookup}
use lopper.Float.{Float64}
use lopper.Model.Dependency.{DependencyReport}
use lopper.Purl.{Url}
use lopper.Baseline.Keys.{has_stable_identity}
use lopper.Baseline.Pairing.{
  items_at, group_from, sorted_keys, Slot, Pair, slots_from, zip_slots, zip_groups, matched_pairs,
  slot_of, side, goes_together, goes_first, stable_pairs, anonymous_pairs, left_pairs,
}
use lopper.Baseline.Groups.{total-current_groups, total-baseline_groups}
use lopper.Baseline.Marks.{Distinct}

module _ (float : Float64) (url : Url) (format_float : float.Carrier → Str) where
  abbrev pub IsDistinct : List (Slot float url format_float) → Type 0
  IsDistinct slots = Pairwise (Distinct (λ slot. slot.ordinal)) slots

  from_above :
      (n : ℕ) (slot : Slot float url format_float) (deps : List (DependencyReport float))
      → slot.ordinal < n
      → All (Distinct (λ s. s.ordinal) slot) (slots_from float url format_float n deps)
  unfolding slots_from
  from_above n slot [] h = tt
  from_above n slot (dep ∷ deps) h = (ground arith, from_above (n + 1) slot deps (omega arith))

  pub slots_from-IsDistinct :
      (n : ℕ) (deps : List (DependencyReport float))
      → IsDistinct (slots_from float url format_float n deps)
  unfolding slots_from
  slots_from-IsDistinct n [] = tt
  slots_from-IsDistinct n (dep ∷ deps) = (
    from_above (n + 1) (record { ordinal = n; dep = dep }) deps (omega arith),
    slots_from-IsDistinct (n + 1) deps,
  )

  module _ (f : Slot float url format_float → ℕ) where
    abbrev Pairs : Type 0
    Pairs = List (Pair float url format_float)

    abbrev Slots : Type 0
    Slots = List (Slot float url format_float)

    abbrev pub on_current : Pairs → ℕ
    on_current pairs = total f (side float url format_float (λ pair. pair.current) pairs)

    abbrev pub on_baseline : Pairs → ℕ
    on_baseline pairs = total f (side float url format_float (λ pair. pair.baseline) pairs)

    pub side-append :
        (choose : Pair float url format_float → Option (Slot float url format_float))
        (ps qs : Pairs)
        → total f (side float url format_float choose (ps ++ qs))
          ≡ total f (side float url format_float choose ps)
            + total f (side float url format_float choose qs)
    unfolding side total
    side-append choose [] qs = omega arith
    side-append choose (p ∷ ps) qs = omega (
      arith,
      total-append f (slot_of float url format_float (choose p))
          (side float url format_float choose (ps ++ qs)),
      total-append f (slot_of float url format_float (choose p))
          (side float url format_float choose ps),
      side-append choose ps qs,
    )

    -- The pairs of one fingerprint have slots of both lists only, each at most once.
    zip_slots-within :
        (key : Str) (cs bs : Slots)
        → (on_current (zip_slots float url format_float key cs bs) ≤ total f cs)
          × (on_baseline (zip_slots float url format_float key cs bs) ≤ total f bs)
    unfolding zip_slots side total
    zip_slots-within key [] bs = omega arith
    zip_slots-within key (c ∷ cs) [] = omega arith
    zip_slots-within key (c ∷ cs) (b ∷ bs) = omega (arith, zip_slots-within key cs bs)

    zip_groups-within :
        (key : Str) (current baseline : Dict Slots) (ks : List Str)
        → (on_current (zip_groups float url format_float key current baseline ks)
            ≤ total (λ k. total f (items_at (lookup k current))) ks)
          × (on_baseline (zip_groups float url format_float key current baseline ks)
              ≤ total (λ k. total f (items_at (lookup k baseline))) ks)
    unfolding zip_groups side total
    zip_groups-within key current baseline [] = omega arith
    zip_groups-within key current baseline (k ∷ ks) =
        let cs = items_at (lookup k current) in
        let bs = items_at (lookup k baseline) in
        let first = zip_slots float url format_float key cs bs in
        let rest = zip_groups float url format_float key current baseline ks in
        omega (
          arith,
          zip_slots-within key cs bs,
          zip_groups-within key current baseline ks,
          side-append (λ pair. pair.current) first rest,
          side-append (λ pair. pair.baseline) first rest,
        )

    pub matched_pairs-within :
        (match_key : DependencyReport float → Str) (key : Str) (cs bs : Slots)
        → (on_current (matched_pairs float url format_float match_key key cs bs) ≤ total f cs)
          × (on_baseline (matched_pairs float url format_float match_key key cs bs) ≤ total f bs)
    unfolding matched_pairs
    matched_pairs-within match_key key cs bs =
        let slot_key = λ (slot : Slot float url format_float). match_key slot.dep in
        let current = group_from slot_key [] cs in
        let baseline = group_from slot_key [] bs in
        omega (
          arith,
          zip_groups-within key current baseline (sorted_keys current baseline),
          total-current_groups slot_key f cs bs,
          total-baseline_groups slot_key f cs bs,
        )

    -- The pairs of the slots that are left have each of them once.
    stable_pairs-all :
        (key : Str) (had_exact : Bool) (cs bs : Slots)
        → (on_current (stable_pairs float url format_float key had_exact cs bs) ≡ total f cs)
          × (on_baseline (stable_pairs float url format_float key had_exact cs bs) ≡ total f bs)
    unfolding stable_pairs side total
    stable_pairs-all key had_exact [] [] = omega arith
    stable_pairs-all key had_exact [] (b ∷ bs) = omega (arith, stable_pairs-all key had_exact [] bs)
    stable_pairs-all key had_exact (c ∷ cs) [] = omega (arith, stable_pairs-all key had_exact cs [])
    stable_pairs-all key had_exact (c ∷ cs) (b ∷ bs) =
        let both = stable_pairs-all key had_exact cs bs in
        let after_current = stable_pairs-all key had_exact cs (b ∷ bs) in
        let after_baseline = stable_pairs-all key had_exact (c ∷ cs) bs in
        let is_all = λ (ps : Pairs).
          (on_current ps ≡ total f (c ∷ cs)) × (on_baseline ps ≡ total f (b ∷ bs)) in
        if_cases is_all (goes_together float url format_float had_exact c cs b bs) _ _
          (λ together. omega (arith, both))
          (λ apart.
            if_cases is_all (goes_first float url format_float c b) _ _
              (λ first. omega (arith, after_current)) (λ second. omega (arith, after_baseline)))

    anonymous_pairs-all :
        (key : Str) (cs bs : Slots)
        → (on_current (anonymous_pairs float url format_float key cs bs) ≡ total f cs)
          × (on_baseline (anonymous_pairs float url format_float key cs bs) ≡ total f bs)
    unfolding anonymous_pairs side total
    anonymous_pairs-all key [] [] = omega arith
    anonymous_pairs-all key [] (b ∷ bs) = omega (arith, anonymous_pairs-all key [] bs)
    anonymous_pairs-all key (c ∷ cs) [] = omega (arith, anonymous_pairs-all key cs [])
    anonymous_pairs-all key (c ∷ cs) (b ∷ bs) = omega (arith, anonymous_pairs-all key cs bs)

    pub left_pairs-all :
        (key : Str) (had_exact : Bool) (cs bs : Slots)
        → (on_current (left_pairs float url format_float key had_exact cs bs) ≡ total f cs)
          × (on_baseline (left_pairs float url format_float key had_exact cs bs) ≡ total f bs)
    left_pairs-all key had_exact cs bs =
        let stable =
          λ (slot : Slot float url format_float). has_stable_identity float url slot.dep in
        let first =
          stable_pairs float url format_float key had_exact (keep_if stable cs)
            (keep_if stable bs) in
        let rest =
          anonymous_pairs float url format_float key (keep_if (λ s. not (stable s)) cs)
            (keep_if (λ s. not (stable s)) bs) in
        omega (
          arith,
          stable_pairs-all key had_exact (keep_if stable cs) (keep_if stable bs),
          anonymous_pairs-all key (keep_if (λ s. not (stable s)) cs)
              (keep_if (λ s. not (stable s)) bs),
          total-keep_if f stable cs,
          total-keep_if f stable bs,
          side-append (λ pair. pair.current) first rest,
          side-append (λ pair. pair.baseline) first rest,
        )
