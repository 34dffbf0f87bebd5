-- ===== src/Baseline/Balance.antt =====
-- internal/report/baseline_diff.go: the counts of a comparison's lists.
use lopper.Prelude.{
  ℕ, ◌+◌, ◌≡◌, refl, subst, List, [], ◌∷◌, ◌++◌, Option, none, some, arith, length, length-append,
  if_cases,
}
use lopper.Prelude.Counts.{total, total-append}
use lopper.Text.{Str}
use lopper.Float.{Float64}
use lopper.Model.Dependency.{DependencyReport}
use lopper.Purl.{Url}
use lopper.Baseline.Pairing.{Slot, Pair, side, slot_of, pair_instances_unbridged}
use lopper.Baseline.Deltas.{
  DependencyDelta, DeltaLists, no_deltas, append_delta, append_change, append_kind,
  append_instance_deltas, delta_of_pair, delta_of_both, added_delta, removed_delta, changed_delta,
  is_unchanged, DeltaKind, changed, added, removed,
}
use lopper.Baseline.Coverage.{total_over, pair_instances_unbridged-all}

module _ (float : Float64) (url : Url) (format_float : float.Carrier → Str) where
  abbrev IsChange : Option (DependencyDelta float) → Type 0
  IsChange none = Unit {0}
  IsChange (some delta) = delta.kind ≡ changed

  delta_of_both-IsChange :
      (curr base : DependencyReport float) → IsChange (delta_of_both float curr base)
  unfolding delta_of_both changed_delta
  delta_of_both-IsChange curr base =
      if_cases IsChange (is_unchanged float (changed_delta float curr base) _) _ _ (λ h. tt)
        (λ h. refl)

  -- What one pair adds to the lists.
  record IsStep (c c' : DeltaLists float) (here there : ℕ) : Type 0 where
    rows : length c'.dependencies + c'.unchanged_rows ≡ length c.dependencies + c.unchanged_rows + 1
    balance : here + length c'.removed + length c.added ≡ there + length c'.added + length c.removed

  abbrev one_of : Option (Slot float url format_float) → ℕ
  one_of slot = total (λ s. 1) (slot_of float url format_float slot)

  abbrev in_current : DeltaKind → ℕ
  in_current added = 1
  in_current removed = 0
  in_current changed = 1

  abbrev in_baseline : DeltaKind → ℕ
  in_baseline added = 0
  in_baseline removed = 1
  in_baseline changed = 1

  append_kind-IsStep :
      (kind : DeltaKind) (c : DeltaLists float) (delta : DependencyDelta float)
      → IsStep c
          (append_kind float kind (record c { dependencies = c.dependencies ++ delta ∷ [] }) delta)
          (in_current kind)
          (in_baseline kind)
  append_kind-IsStep added c delta =
      omega (arith, length-append c.dependencies (delta ∷ []), length-append c.added (delta ∷ []))
  append_kind-IsStep removed c delta =
      omega (arith, length-append c.dependencies (delta ∷ []), length-append c.removed (delta ∷ []))
  append_kind-IsStep changed c delta = omega (arith, length-append c.dependencies (delta ∷ []))

  append_delta-IsStep :
      (c : DeltaLists float) (delta : DependencyDelta float)
      → IsStep c (append_delta float c delta) (in_current delta.kind) (in_baseline delta.kind)
  unfolding append_delta
  append_delta-IsStep c delta = append_kind-IsStep delta.kind c delta

  append_both :
      (c : DeltaLists float) (pair : Pair float url format_float)
      (d : Option (DependencyDelta float))
      → IsChange d
      → IsStep c (append_change float url format_float c pair d) 1 1
  append_both c pair none h = ground arith
  append_both c pair (some delta) h =
      subst
        (λ kind.
          IsStep c (append_change float url format_float c pair (some delta)) (in_current kind)
            (in_baseline kind))
        h (append_delta-IsStep c _)

  append_pair :
      (c : DeltaLists float) (pair : Pair float url format_float)
      (current baseline : Option (Slot float url format_float))
      → IsStep c
          (append_change float url format_float c pair
            (delta_of_pair float url format_float current baseline))
          (one_of current)
          (one_of baseline)
  unfolding delta_of_pair total added_delta removed_delta
  append_pair c pair none none = omega arith
  append_pair c pair (some s) none = append_delta-IsStep c _
  append_pair c pair none (some t) = append_delta-IsStep c _
  append_pair c pair (some s) (some t) =
      append_both c pair (delta_of_both float s.dep t.dep) (delta_of_both-IsChange s.dep t.dep)

  abbrev currents : List (Pair float url format_float) → ℕ
  currents pairs = total_over float url format_float (λ dep. 1) (λ pair. pair.current) pairs

  abbrev baselines : List (Pair float url format_float) → ℕ
  baselines pairs = total_over float url format_float (λ dep. 1) (λ pair. pair.baseline) pairs

  append_all :
      (c : DeltaLists float) (pairs : List (Pair float url format_float))
      → let c' = append_instance_deltas float url format_float c pairs in
        (length c'.dependencies + c'.unchanged_rows
          ≡ length c.dependencies + c.unchanged_rows + length pairs)
        × (currents pairs + length c'.removed + length c.added
            ≡ baselines pairs + length c'.added + length c.removed)
  unfolding append_instance_deltas side total
  append_all c [] = omega arith
  append_all c (pair ∷ pairs) =
      let step = append_pair c pair pair.current pair.baseline in
      let change = delta_of_pair float url format_float pair.current pair.baseline in
      let rest = append_all (append_change float url format_float c pair change) pairs in
      omega (
        arith,
        step.rows,
        step.balance,
        rest,
        total-append (λ slot. 1) (slot_of float url format_float pair.current)
            (side float url format_float (λ pair. pair.current) pairs),
        total-append (λ slot. 1) (slot_of float url format_float pair.baseline)
            (side float url format_float (λ pair. pair.baseline) pairs),
      )

  total-length : (deps : List (DependencyReport float)) → total (λ dep. 1) deps ≡ length deps
  unfolding total
  total-length [] = refl
  total-length (dep ∷ deps) = omega (arith, total-length deps)

  -- In the comparison of two reports without bridges each pair is a row or counted as unchanged, and
  -- the number of current dependencies is that of the baseline's, less the removed and plus the added.
  pub append_instance_deltas-balance :
      (current baseline : List (DependencyReport float))
      → let pairs = pair_instances_unbridged float url format_float current baseline in
        let lists = append_instance_deltas float url format_float (no_deltas float) pairs in
        (length lists.dependencies + lists.unchanged_rows ≡ length pairs)
        × (length current + length lists.removed ≡ length baseline + length lists.added)
  append_instance_deltas-balance current baseline = omega (
    arith,
    append_all (no_deltas float) (pair_instances_unbridged float url format_float current baseline),
    pair_instances_unbridged-all float url format_float (λ dep. 1) current baseline,
    total-length current,
    total-length baseline,
  )
