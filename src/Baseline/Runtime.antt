-- ===== src/Baseline/Runtime.antt =====
-- internal/report/baseline_diff.go: what changed in the runtime usage of a dependency.
use lopper.Prelude.{
  ℕ, ◌+◌, Bool, true, false, not, ◌&&◌, ◌||◌, List, [], ◌∷◌, ◌++◌, Option, none, some, ltb, ◌==◌,
  if◌then◌else◌,
}
use lopper.Prelude.Int.{ℤ, pos, difference, ltb_ℤ}
use lopper.Text.{Str, str_eq}
use lopper.Dict.{Dict, lookup, insert}
use lopper.Model.Parts.{
  RuntimeUsage, RuntimeModuleUsage, Correlation, static_only, runtime_only, overlap, unset, other,
}
use lopper.Vulnerability.Scores.{runtime_usage_correlation}
use lopper.Baseline.Keys.{is_nonempty}
use lopper.Baseline.Pairing.{sorted_keys}

-- `RuntimeModuleDelta`, whose `CountDelta` is the difference of the two counts.
pub record RuntimeModuleDelta : Type 0 where
  pub module_name : Str
  pub baseline_count : ℕ
  pub current_count : ℕ
  pub count_delta : ℤ

-- `RuntimeChangeType`.
pub data RuntimeChange : Type 0 where
  load_count new_runtime_loads removed_runtime_loads correlation : RuntimeChange
  runtime_only_regression runtime_only_improvement : RuntimeChange
  modules parent_modules entrypoints : RuntimeChange

-- The three lists of `compareRuntimeModuleUsage`.
pub record ModuleChanges : Type 0 where
  pub added : List RuntimeModuleDelta
  pub removed : List RuntimeModuleDelta
  pub changed : List RuntimeModuleDelta

abbrev pub no_changes : ModuleChanges
no_changes = record { added = []; removed = []; changed = [] }

-- `RuntimeDelta`.
pub record RuntimeDelta : Type 0 where
  pub comparable : Bool
  pub baseline_load_count : Option ℕ
  pub current_load_count : Option ℕ
  pub load_count_delta : Option ℤ
  pub baseline_correlation : Correlation
  pub current_correlation : Correlation
  pub change_types : List RuntimeChange
  pub new_loads : Bool
  pub removed_loads : Bool
  pub only_regression : Bool
  pub only_improvement : Bool
  pub module_changes : ModuleChanges
  pub parent_changes : ModuleChanges
  pub entrypoint_changes : ModuleChanges

-- The count of a module; 0 where a Go map has no entry.
abbrev pub or_zero : Option ℕ → ℕ
or_zero none = 0
or_zero (some n) = n

-- `runtimeModuleCounts`.
unfoldable pub module_counts_from : Dict ℕ → List RuntimeModuleUsage → Dict ℕ
module_counts_from counts [] = counts
module_counts_from counts (item ∷ items) =
    module_counts_from
      (insert item.module_name (or_zero (lookup item.module_name counts) + item.count) counts) items

abbrev delta_of : Str → ℕ → ℕ → RuntimeModuleDelta
delta_of name current baseline = record {
  module_name = name;
  baseline_count = baseline;
  current_count = current;
  count_delta = difference current baseline;
}

-- The cases of the loop of `compareRuntimeModuleUsage`, in front of what follows.
unfoldable pub add_module_change : Str → Option ℕ → Option ℕ → ModuleChanges → ModuleChanges
add_module_change name (some c) none later = record later {
  added = delta_of name c 0 ∷ later.added;
}
add_module_change name none (some b) later = record later {
  removed = delta_of name 0 b ∷ later.removed;
}
add_module_change name (some c) (some b) later =
    if c == b then later else record later { changed = delta_of name c b ∷ later.changed }
add_module_change name none none later = later

unfoldable pub compare_modules_at : Dict ℕ → Dict ℕ → List Str → ModuleChanges
compare_modules_at current baseline [] = no_changes
compare_modules_at current baseline (name ∷ names) =
    add_module_change name (lookup name current) (lookup name baseline)
      (compare_modules_at current baseline names)

-- `compareRuntimeModuleUsage`.
unfoldable pub compare_module_usage :
    List RuntimeModuleUsage → List RuntimeModuleUsage → ModuleChanges
compare_module_usage current baseline =
    let current_counts = module_counts_from [] current in
    let baseline_counts = module_counts_from [] baseline in
    compare_modules_at current_counts baseline_counts (sorted_keys current_counts baseline_counts)

abbrev is_only_at_runtime : Correlation → Bool
is_only_at_runtime runtime_only = true
is_only_at_runtime _ = false

-- `isRuntimeOnlyUsage` of a usage that is there.
unfoldable pub is_runtime_only_usage : RuntimeUsage → Bool
is_runtime_only_usage usage =
    usage.runtime_only || is_only_at_runtime (runtime_usage_correlation (some usage))

unfoldable pub same_correlation : Correlation → Correlation → Bool
same_correlation static_only static_only = true
same_correlation runtime_only runtime_only = true
same_correlation overlap overlap = true
same_correlation unset unset = true
same_correlation (other before) (other now) = str_eq before now
same_correlation _ _ = false

abbrev when : Bool → RuntimeChange → List RuntimeChange
when true change = change ∷ []
when false change = []

abbrev has_changes : ModuleChanges → Bool
has_changes changes =
    is_nonempty changes.added || is_nonempty changes.removed || is_nonempty changes.changed

abbrev usage_load_count : Option RuntimeUsage → Option ℕ
usage_load_count none = none
usage_load_count (some usage) = some usage.load_count

-- `runtimePresenceDelta`; `BaselinePresent` and `CurrentPresent` say that a load count is there.
unfoldable pub presence_delta : Option RuntimeUsage → Option RuntimeUsage → RuntimeDelta
presence_delta current baseline = record {
  comparable = false;
  baseline_load_count = usage_load_count baseline;
  current_load_count = usage_load_count current;
  load_count_delta = none;
  baseline_correlation = unset;
  current_correlation = unset;
  change_types = [];
  new_loads = false;
  removed_loads = false;
  only_regression = false;
  only_improvement = false;
  module_changes = no_changes;
  parent_changes = no_changes;
  entrypoint_changes = no_changes;
}

-- `appendRuntimeLoadCountChanges`, `appendRuntimeCorrelationChange`, `appendRuntimeOnlyChange` and
-- `appendRuntimeCollectionChanges`, in this order.
unfoldable pub append_load_count_changes : RuntimeUsage → RuntimeUsage → RuntimeDelta → RuntimeDelta
append_load_count_changes current baseline delta =
    let started = (baseline.load_count == 0) && ltb 0 current.load_count in
    let stopped = ltb 0 baseline.load_count && (current.load_count == 0) in
    record delta {
      load_count_delta = some (difference current.load_count baseline.load_count);
      change_types =
          delta.change_types
          ++ (when (not (current.load_count == baseline.load_count)) load_count
              ++ (when started new_runtime_loads ++ when stopped removed_runtime_loads));
      new_loads = started;
      removed_loads = stopped;
    }

unfoldable pub append_correlation_change : RuntimeUsage → RuntimeUsage → RuntimeDelta → RuntimeDelta
append_correlation_change current baseline delta =
    let before = runtime_usage_correlation (some baseline) in
    let now = runtime_usage_correlation (some current) in
    record delta {
      baseline_correlation = before;
      current_correlation = now;
      change_types = delta.change_types ++ when (not (same_correlation before now)) correlation;
    }

unfoldable pub append_only_change : RuntimeUsage → RuntimeUsage → RuntimeDelta → RuntimeDelta
append_only_change current baseline delta =
    let worse = is_runtime_only_usage current && not (is_runtime_only_usage baseline) in
    let better = is_runtime_only_usage baseline && not (is_runtime_only_usage current) in
    record delta {
      only_regression = worse;
      only_improvement = better;
      change_types =
          delta.change_types
          ++ (when worse runtime_only_regression ++ when better runtime_only_improvement);
    }

unfoldable pub append_collection_changes : RuntimeUsage → RuntimeUsage → RuntimeDelta → RuntimeDelta
append_collection_changes current baseline delta =
    let by_module = compare_module_usage current.modules baseline.modules in
    let by_parent = compare_module_usage current.parent_modules baseline.parent_modules in
    let by_entrypoint = compare_module_usage current.entrypoints baseline.entrypoints in
    record delta {
      module_changes = by_module;
      parent_changes = by_parent;
      entrypoint_changes = by_entrypoint;
      change_types =
          delta.change_types
          ++ (when (has_changes by_module) modules
              ++ (when (has_changes by_parent) parent_modules
                  ++ when (has_changes by_entrypoint) entrypoints));
    }

-- `dependencyRuntimeDelta`: the delta, and whether something changed.
unfoldable pub runtime_delta :
    Option RuntimeUsage → Option RuntimeUsage → Option RuntimeDelta × Bool
runtime_delta none none = (none, false)
runtime_delta (some current) none = (some (presence_delta (some current) none), true)
runtime_delta none (some baseline) = (some (presence_delta none (some baseline)), true)
runtime_delta (some current) (some baseline) =
    let delta = append_collection_changes current baseline (
      append_only_change current baseline (
        append_correlation_change current baseline (
          append_load_count_changes current baseline
            (record (presence_delta (some current) (some baseline)) { comparable = true })))) in
    (some delta, is_nonempty delta.change_types)

abbrev load_delta : Option ℤ → ℤ
load_delta none = pos 0
load_delta (some n) = n

-- `runtimeDeltaIsRegression` and `runtimeDeltaIsImprovement`.
unfoldable pub is_regression : Option RuntimeDelta → Bool
is_regression none = false
is_regression (some delta) =
    delta.comparable
    && (delta.new_loads
        || delta.only_regression
        || ltb_ℤ (pos 0) (load_delta delta.load_count_delta))

unfoldable pub is_improvement : Option RuntimeDelta → Bool
is_improvement none = false
is_improvement (some delta) =
    delta.comparable
    && (delta.removed_loads
        || delta.only_improvement
        || ltb_ℤ (load_delta delta.load_count_delta) (pos 0))
