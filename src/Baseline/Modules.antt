-- ===== src/Baseline/Modules.antt =====
-- internal/report/baseline_diff.go: the counts in `compareRuntimeModuleUsage`.
use lopper.Prelude.{
  ℕ, ◌+◌, ◌≡◌, refl, ap, ◌∙◌, true, List, [], ◌∷◌, Option, none, some, arith, All, All-map, fun_ext,
}
use lopper.Prelude.Sorted.{Pairwise}
use lopper.Prelude.Counts.{total, keep_if}
use lopper.Text.{Str, str_eq, str_eq_iff}
use lopper.Text.Ascending.{Differ, has}
use lopper.Dict.{Dict, lookup, insert, has_key, has_value, lookup-insert, lookup-insert_self, keys}
use lopper.Model.Parts.{RuntimeModuleUsage}
use lopper.Baseline.Pairing.{sorted_keys}
use lopper.Baseline.Groups.{IsMap, insert-IsMap, has-sorted_keys, sorted_keys-Differ, total-groups}
use lopper.Baseline.Runtime.{
  RuntimeModuleDelta, ModuleChanges, or_zero, module_counts_from, add_module_change,
  compare_modules_at, compare_module_usage,
}

abbrev name_of : RuntimeModuleUsage → Str
name_of item = item.module_name

abbrev with_count : Dict ℕ → RuntimeModuleUsage → Dict ℕ
with_count counts item =
    insert item.module_name (or_zero (lookup item.module_name counts) + item.count) counts

counts-IsMap :
    (counts : Dict ℕ) (items : List RuntimeModuleUsage)
    → IsMap counts
    → IsMap (module_counts_from counts items)
unfolding module_counts_from
counts-IsMap counts [] h = h
counts-IsMap counts (item ∷ items) h =
    counts-IsMap (with_count counts item) items (insert-IsMap item.module_name _ counts h)

counts-keep :
    (k : Str) (counts : Dict ℕ) (items : List RuntimeModuleUsage)
    → has_key k counts ≡ true
    → has_key k (module_counts_from counts items) ≡ true
unfolding module_counts_from
counts-keep k counts [] h = h
counts-keep k counts (item ∷ items) h = counts-keep k (with_count counts item) items (
    ground (
      arith,
      lookup-insert item.module_name k (or_zero (lookup item.module_name counts) + item.count)
          counts,
    ))

counts-has_key :
    (counts : Dict ℕ) (items : List RuntimeModuleUsage)
    → All (λ x. has_key (name_of x) (module_counts_from counts items) ≡ true) items
unfolding module_counts_from
counts-has_key counts [] = tt
counts-has_key counts (item ∷ items) = (
  counts-keep item.module_name (with_count counts item) items
      (ap has_value (lookup-insert_self item.module_name _ counts)),
  counts-has_key (with_count counts item) items,
)

-- A module's count is the sum of its items.
lookup-counts :
    (k : Str) (counts : Dict ℕ) (items : List RuntimeModuleUsage)
    → or_zero (lookup k (module_counts_from counts items))
      ≡ or_zero (lookup k counts) + total (λ x. x.count) (keep_if (λ x. str_eq (name_of x) k) items)
unfolding module_counts_from keep_if total
lookup-counts k counts [] = omega arith
lookup-counts k counts (item ∷ items) = ground (
  arith,
  lookup-counts k (with_count counts item) items,
  lookup-insert item.module_name k (or_zero (lookup item.module_name counts) + item.count) counts,
  str_eq_iff item.module_name k,
)

total-counts :
    (items : List RuntimeModuleUsage) (ks : List Str)
    → Pairwise Differ ks
    → ((k : Str) → has_key k (module_counts_from [] items) ≡ true → has k ks ≡ true)
    → total (λ k. or_zero (lookup k (module_counts_from [] items))) ks ≡ total (λ x. x.count) items
unfolding lookup
total-counts items ks d h =
    ap (λ (g : Str → ℕ). total g ks) (fun_ext (λ k. lookup-counts k [] items ∙ omega arith))
    ∙ total-groups name_of (λ x. x.count) items ks d
        (All-map (λ x found. h (name_of x) found) items (counts-has_key [] items))

-- The counts of the listed modules in one of the two reports.
abbrev pub listed : (RuntimeModuleDelta → ℕ) → ModuleChanges → ℕ
listed count changes =
    total count changes.added + total count changes.removed + total count changes.changed

add_module_change-balance :
    (name : Str) (current baseline : Option ℕ) (later : ModuleChanges)
    → let changes = add_module_change name current baseline later in
      listed (λ d. d.current_count) changes
        + or_zero baseline
        + listed (λ d. d.baseline_count) later
      ≡ listed (λ d. d.baseline_count) changes
        + or_zero current
        + listed (λ d. d.current_count) later
unfolding add_module_change total
add_module_change-balance name none none later = omega arith
add_module_change-balance name none (some b) later = omega arith
add_module_change-balance name (some c) none later = omega arith
add_module_change-balance name (some c) (some b) later = ground arith

compare_modules_at-balance :
    (current baseline : Dict ℕ) (names : List Str)
    → let changes = compare_modules_at current baseline names in
      listed (λ d. d.current_count) changes + total (λ k. or_zero (lookup k baseline)) names
      ≡ listed (λ d. d.baseline_count) changes + total (λ k. or_zero (lookup k current)) names
unfolding compare_modules_at total
compare_modules_at-balance current baseline [] = refl
compare_modules_at-balance current baseline (name ∷ names) = omega (
  arith,
  compare_modules_at-balance current baseline names,
  add_module_change-balance name (lookup name current) (lookup name baseline)
      (compare_modules_at current baseline names),
)

-- What the loads of all modules grew by is what those of the listed modules grew by.
pub compare_module_usage-balance :
    (current baseline : List RuntimeModuleUsage)
    → let changes = compare_module_usage current baseline in
      listed (λ d. d.current_count) changes + total (λ x. x.count) baseline
      ≡ listed (λ d. d.baseline_count) changes + total (λ x. x.count) current
unfolding compare_module_usage keys
compare_module_usage-balance current baseline =
    let now = module_counts_from [] current in
    let before = module_counts_from [] baseline in
    let differ =
      sorted_keys-Differ now before (counts-IsMap [] current tt) (counts-IsMap [] baseline tt) in
    omega (
      arith,
      compare_modules_at-balance now before (sorted_keys now before),
      total-counts current (sorted_keys now before) differ
          (λ k h. has-sorted_keys now before k (ground arith)),
      total-counts baseline (sorted_keys now before) differ
          (λ k h. has-sorted_keys now before k (ground arith)),
    )
