-- ===== src/Baseline/Coverage.antt =====
-- internal/report/baseline_diff.go: the pairs of a comparison against the dependencies on each side.
use lopper.Prelude.{ℕ, ◌+◌, ◌≤◌, ◌≡◌, refl, List, [], ◌∷◌, ◌++◌, Option, arith}
use lopper.Prelude.Sort.{is_lt}
use lopper.Prelude.Sorted.{Pairwise-keep_if}
use lopper.Prelude.Counts.{total, total-sort_by}
use lopper.Text.{Str, compare_str}
use lopper.Dict.{Dict, lookup}
use lopper.Float.{Float64}
use lopper.Model.Dependency.{DependencyReport}
use lopper.Purl.{Url}
use lopper.Baseline.Keys.{is_nonempty, versionless_key, residual_identity_key, pairing_order_key}
use lopper.Baseline.Pairing.{
  items_at, group_from, sorted_keys, Slot, Pair, slots_from, sorted_for_pairing, side, unmatched,
  exact_pairs, residual_pairs, left_pairs, pairs_of_slots, pair_instances_for_key, index_instances,
  pairs_at_keys, pair_instances_unbridged,
}
use lopper.Baseline.Groups.{total-current_groups, total-baseline_groups}
use lopper.Baseline.Sides.{
  IsDistinct, on_current, on_baseline, side-append, matched_pairs-within, left_pairs-all,
  slots_from-IsDistinct,
}
use lopper.Baseline.Marks.{total-unmarked, Distinct}

module _ (float : Float64) (url : Url) (format_float : float.Carrier → Str) where
  module _ (f : Slot float url format_float → ℕ) where
    -- What a round of matches leaves without a mark.
    rest_of :
        (slots matches : List (Slot float url format_float))
        → IsDistinct float url format_float slots
        → ((g : Slot float url format_float → ℕ) → total g matches ≤ total g slots)
        → total f matches + total f (unmatched float url format_float matches slots) ≡ total f slots
    unfolding unmatched
    rest_of slots matches distinct within =
        total-unmarked (λ slot. slot.ordinal) matches slots distinct within f

  unmatched-IsDistinct :
      (matches slots : List (Slot float url format_float))
      → IsDistinct float url format_float slots
      → IsDistinct float url format_float (unmatched float url format_float matches slots)
  unfolding unmatched
  unmatched-IsDistinct matches slots h =
      Pairwise-keep_if (Distinct (λ slot. slot.ordinal)) _ slots h

  module _ (f : Slot float url format_float → ℕ) where
    -- The pairs of two lists of slots have each slot once.
    pairs_of_slots-all :
        (key : Str) (cs bs : List (Slot float url format_float))
        → IsDistinct float url format_float cs
        → IsDistinct float url format_float bs
        → (on_current float url format_float f (pairs_of_slots float url format_float key cs bs)
            ≡ total f cs)
          × (on_baseline float url format_float f (pairs_of_slots float url format_float key cs bs)
              ≡ total f bs)
    unfolding pairs_of_slots
    pairs_of_slots-all key cs bs dc db =
        let exact = exact_pairs float url format_float key cs bs in
        let order_key = pairing_order_key float url format_float in
        let residual_key = residual_identity_key float url in
        let exact_cs = side float url format_float (λ pair. pair.current) exact in
        let exact_bs = side float url format_float (λ pair. pair.baseline) exact in
        let cs' = unmatched float url format_float exact_cs cs in
        let bs' = unmatched float url format_float exact_bs bs in
        let residual = residual_pairs float url format_float key cs' bs' in
        let residual_cs = side float url format_float (λ pair. pair.current) residual in
        let residual_bs = side float url format_float (λ pair. pair.baseline) residual in
        let cs'' = unmatched float url format_float residual_cs cs' in
        let bs'' = unmatched float url format_float residual_bs bs' in
        let left = left_pairs float url format_float key (is_nonempty exact) cs'' bs'' in
        omega (
          arith,
          rest_of f cs exact_cs dc
              (λ g. (matched_pairs-within float url format_float g order_key key cs bs).0),
          rest_of f bs exact_bs db
              (λ g. (matched_pairs-within float url format_float g order_key key cs bs).1),
          rest_of f cs' residual_cs (unmatched-IsDistinct exact_cs cs dc)
              (λ g. (matched_pairs-within float url format_float g residual_key key cs' bs').0),
          rest_of f bs' residual_bs (unmatched-IsDistinct exact_bs bs db)
              (λ g. (matched_pairs-within float url format_float g residual_key key cs' bs').1),
          left_pairs-all float url format_float f key (is_nonempty exact) cs'' bs'',
          side-append float url format_float f (λ pair. pair.current) exact (residual ++ left),
          side-append float url format_float f (λ pair. pair.current) residual left,
          side-append float url format_float f (λ pair. pair.baseline) exact (residual ++ left),
          side-append float url format_float f (λ pair. pair.baseline) residual left,
        )

  -- The dependencies on one side of the pairs.
  abbrev pub total_over :
      (DependencyReport float → ℕ)
      → (Pair float url format_float → Option (Slot float url format_float))
      → List (Pair float url format_float)
      → ℕ
  total_over weight choose pairs =
      total (λ slot. weight slot.dep) (side float url format_float choose pairs)

  module _ (weight : DependencyReport float → ℕ) where
    total-slots_from :
        (n : ℕ) (deps : List (DependencyReport float))
        → total (λ slot. weight slot.dep) (slots_from float url format_float n deps)
          ≡ total weight deps
    unfolding total slots_from
    total-slots_from n [] = refl
    total-slots_from n (dep ∷ deps) = omega (arith, total-slots_from (n + 1) deps)

    -- The pairs of one key have each dependency of the key once, on its side.
    pub pair_instances_for_key-all :
        (key : Str) (current baseline : List (DependencyReport float))
        → let pairs = pair_instances_for_key float url format_float key current baseline in
          (total_over weight (λ pair. pair.current) pairs ≡ total weight current)
          × (total_over weight (λ pair. pair.baseline) pairs ≡ total weight baseline)
    unfolding pair_instances_for_key sorted_for_pairing
    pair_instances_for_key-all key current baseline =
        let order_key = pairing_order_key float url format_float in
        let less = λ (a : DependencyReport float) (b : DependencyReport float).
          is_lt (compare_str (order_key a) (order_key b)) in
        let cs = sorted_for_pairing float url format_float current in
        let bs = sorted_for_pairing float url format_float baseline in
        omega (
          arith,
          pairs_of_slots-all (λ slot. weight slot.dep) key (slots_from float url format_float 0 cs)
              (slots_from float url format_float 0 bs)
              (slots_from-IsDistinct float url format_float 0 cs)
              (slots_from-IsDistinct float url format_float 0 bs),
          total-slots_from 0 cs,
          total-slots_from 0 bs,
          total-sort_by weight less current,
          total-sort_by weight less baseline,
        )

    pairs_at_keys-all :
        (current baseline : Dict (List (DependencyReport float))) (ks : List Str)
        → let pairs = pairs_at_keys float url format_float current baseline ks in
          (total_over weight (λ pair. pair.current) pairs
            ≡ total (λ k. total weight (items_at (lookup k current))) ks)
          × (total_over weight (λ pair. pair.baseline) pairs
              ≡ total (λ k. total weight (items_at (lookup k baseline))) ks)
    unfolding pairs_at_keys side total
    pairs_at_keys-all current baseline [] = omega arith
    pairs_at_keys-all current baseline (k ∷ ks) =
        let cs = items_at (lookup k current) in
        let bs = items_at (lookup k baseline) in
        let first = pair_instances_for_key float url format_float k cs bs in
        let rest = pairs_at_keys float url format_float current baseline ks in
        omega (
          arith,
          pair_instances_for_key-all k cs bs,
          pairs_at_keys-all current baseline ks,
          side-append float url format_float (λ slot. weight slot.dep) (λ pair. pair.current) first
              rest,
          side-append float url format_float (λ slot. weight slot.dep) (λ pair. pair.baseline) first
              rest,
        )

    -- `PairDependencyInstances` without bridges puts each dependency of both reports into one pair, on
    -- its side: any weight of dependencies sums up over the pairs as over the report.
    pub pair_instances_unbridged-all :
        (current baseline : List (DependencyReport float))
        → let pairs = pair_instances_unbridged float url format_float current baseline in
          (total_over weight (λ pair. pair.current) pairs ≡ total weight current)
          × (total_over weight (λ pair. pair.baseline) pairs ≡ total weight baseline)
    unfolding pair_instances_unbridged index_instances
    pair_instances_unbridged-all current baseline =
        let key = versionless_key float url in
        let current_index = group_from key [] current in
        let baseline_index = group_from key [] baseline in
        omega (
          arith,
          pairs_at_keys-all current_index baseline_index (sorted_keys current_index baseline_index),
          total-current_groups key weight current baseline,
          total-baseline_groups key weight current baseline,
        )
