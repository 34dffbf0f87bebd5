-- ===== src/Merge/Runtime.antt =====
-- internal/analysis/merge.go: runtime usage and the counted lists.
use lopper.Prelude.{
  ℕ, ◌+◌, Bool, true, false, not, ◌&&◌, ◌||◌, List, [], ◌∷◌, ◌++◌, Option, none, some, ltb, ◌==◌,
  if◌then◌else◌, take,
}
use lopper.Prelude.Sort.{sort_by, is_lt}
use lopper.Text.{Str, str_eq, compare_str}
use lopper.Dict.{Dict, lookup, insert, values}
use lopper.Model.Parts.{
  SymbolUsage, RuntimeModuleUsage, RuntimeUsage, Correlation, static_only, runtime_only, overlap,
  unset, other,
}

-- `runtimeUsageSignals`: static and runtime evidence.
unfoldable pub runtime_usage_signals : Option RuntimeUsage → Bool × Bool
runtime_usage_signals none = (false, false)
runtime_usage_signals (some usage) = elim usage.correlation [
  | overlap ↦ (true, true)
  | runtime_only ↦ (false, true)
  | static_only ↦ (true, false)
  | unset ↦ (not usage.runtime_only, ltb 0 usage.load_count)
  | other text ↦ (not usage.runtime_only, ltb 0 usage.load_count)
]

-- `mergeRuntimeCorrelation`.
unfoldable pub merge_runtime_correlation : Bool → Bool → Correlation
merge_runtime_correlation has_static has_runtime =
    if has_static && has_runtime then overlap else if has_runtime then runtime_only else static_only

-- The loop that three of the merges share: a counted item is added to that of its key.
module _ {T : Type 0} (key : T → Str) (count_of : T → ℕ) (with_count : ℕ → T → T) where
  unfoldable pub tally : Dict T → List T → Dict T
  tally merged [] = merged
  tally merged (item ∷ items) = elim (lookup (key item) merged) [
    | some current ↦
        tally (insert (key item) (with_count (count_of current + count_of item) current) merged)
          items
    | none ↦ tally (insert (key item) item merged) items
  ]

abbrev pub module_with_count : ℕ → RuntimeModuleUsage → RuntimeModuleUsage
module_with_count n item = record item { count = n }

abbrev pub symbol_with_count : ℕ → SymbolUsage → SymbolUsage
symbol_with_count n item = record item { count = n }

abbrev pub module_key : RuntimeModuleUsage → Str
module_key item = item.module_name

abbrev pub symbol_key : SymbolUsage → Str
symbol_key item = item.module_name ++ 0 ∷ item.name

unfoldable pub module_usage_less : RuntimeModuleUsage → RuntimeModuleUsage → Bool
module_usage_less a b =
    if a.count == b.count
    then is_lt (compare_str a.module_name b.module_name)
    else ltb b.count a.count

-- `mergeRuntimeModuleUsage`.
unfoldable pub merge_runtime_module_usage :
    List RuntimeModuleUsage → List RuntimeModuleUsage → List RuntimeModuleUsage
merge_runtime_module_usage left right =
    sort_by module_usage_less
      (values (tally module_key (λ item. item.count) module_with_count [] (left ++ right)))

unfoldable pub runtime_symbol_less : SymbolUsage → SymbolUsage → Bool
runtime_symbol_less a b =
    if a.count == b.count
    then if str_eq a.module_name b.module_name
      then is_lt (compare_str a.name b.name)
      else is_lt (compare_str a.module_name b.module_name)
    else ltb b.count a.count

-- The map of the symbols.
abbrev pub tally_symbols : List SymbolUsage → List SymbolUsage → Dict SymbolUsage
tally_symbols left right =
    tally symbol_key (λ item. item.count) symbol_with_count [] (left ++ right)

-- `mergeRuntimeSymbolUsage`.
unfoldable pub merge_runtime_symbol_usage : List SymbolUsage → List SymbolUsage → List SymbolUsage
merge_runtime_symbol_usage left right =
    take 5 (sort_by runtime_symbol_less (values (tally_symbols left right)))

unfoldable pub top_symbol_less : SymbolUsage → SymbolUsage → Bool
top_symbol_less a b =
    if a.count == b.count then is_lt (compare_str a.name b.name) else ltb b.count a.count

-- `mergeTopSymbols`.
unfoldable pub merge_top_symbols : List SymbolUsage → List SymbolUsage → List SymbolUsage
merge_top_symbols left right = take 5 (sort_by top_symbol_less (values (tally_symbols left right)))

-- The fields that `mergeRuntimeUsage` reads of a usage that may be nil.
abbrev load_count_of : Option RuntimeUsage → ℕ
load_count_of none = 0
load_count_of (some usage) = usage.load_count

abbrev modules_of : Option RuntimeUsage → List RuntimeModuleUsage
modules_of none = []
modules_of (some usage) = usage.modules

abbrev top_symbols_of : Option RuntimeUsage → List SymbolUsage
top_symbols_of none = []
top_symbols_of (some usage) = usage.top_symbols

abbrev is_runtime_only : Correlation → Bool
is_runtime_only runtime_only = true
is_runtime_only _ = false

-- `mergeRuntimeUsage` where one of the two is there.
unfoldable pub merge_present : Option RuntimeUsage → Option RuntimeUsage → RuntimeUsage
merge_present left right =
    let has_static = (runtime_usage_signals left).0 || (runtime_usage_signals right).0 in
    let has_runtime = (runtime_usage_signals left).1 || (runtime_usage_signals right).1 in
    let correlation = merge_runtime_correlation has_static has_runtime in
    record {
      load_count = load_count_of left + load_count_of right;
      correlation = correlation;
      runtime_only = is_runtime_only correlation;
      modules = merge_runtime_module_usage (modules_of left) (modules_of right);
      parent_modules = [];
      entrypoints = [];
      top_symbols = merge_runtime_symbol_usage (top_symbols_of left) (top_symbols_of right);
    }

-- `mergeRuntimeUsage`.
unfoldable pub merge_runtime_usage : Option RuntimeUsage → Option RuntimeUsage → Option RuntimeUsage
merge_runtime_usage none none = none
merge_runtime_usage left right = some (merge_present left right)
