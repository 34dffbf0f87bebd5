-- ===== src/Merge/Imports.antt =====
-- internal/analysis/merge.go: the imports of a dependency, and `uniqueSorted` of pipeline.go. A nil
-- slice and an empty one are the empty list.
use lopper.Prelude.{
  ℕ, Bool, not, ◌&&◌, ◌||◌, List, [], ◌∷◌, ◌++◌, none, some, ltb, ◌==◌, if◌then◌else◌, any, map,
}
use lopper.Prelude.Sort.{sort_by, is_lt}
use lopper.Text.{Str, str_eq, compare_str}
use lopper.Dict.{Dict, lookup, insert, values}
use lopper.Model.Parts.{ImportUse, Location}

-- The loop of `uniqueSorted`: an element goes in when it is not the one before it.
unfoldable pub unique_after : Str → List Str → List Str
unique_after before [] = []
unique_after before (item ∷ items) =
    let rest = unique_after item items in if str_eq item before then rest else item ∷ rest

abbrev unique_list : List Str → List Str
unique_list [] = []
unique_list (item ∷ items) = item ∷ unique_after item items

-- `uniqueSorted`.
unfoldable pub unique_sorted : List Str → List Str
unique_sorted items = unique_list (sort_by (λ a b. is_lt (compare_str a b)) items)

-- The `less` of `sortedImportUseLocations`.
unfoldable pub location_less : Location → Location → Bool
location_less a b =
    if not (str_eq a.file b.file)
    then is_lt (compare_str a.file b.file)
    else if not (a.line == b.line)
    then ltb a.line b.line
    else ltb a.column b.column

-- `sortedImportUseLocations`.
abbrev pub sorted_locations : List Location → List Location
sorted_locations locations = sort_by location_less locations

-- `importUseKey`.
unfoldable pub import_use_key : ImportUse → Str
import_use_key item = item.module_name ++ 0 ∷ item.name

-- Zero is an unset score; else the lowest stays.
unfoldable pub lowest_score : ℕ → ℕ → ℕ
lowest_score current score =
    if current == 0 || ltb 0 score && ltb score current then score else current

-- The update of an import that is already in the map.
unfoldable pub absorb_import : ImportUse → ImportUse → ImportUse
absorb_import current item = record current {
  locations = current.locations ++ item.locations;
  provenance = current.provenance ++ item.provenance;
  confidence_reason_codes = current.confidence_reason_codes ++ item.confidence_reason_codes;
  confidence_score = lowest_score current.confidence_score item.confidence_score;
}

-- The first loop of `mergeImportUses`.
unfoldable pub collect_imports : Dict ImportUse → List ImportUse → Dict ImportUse
collect_imports merged [] = merged
collect_imports merged (item ∷ items) = elim (lookup (import_use_key item) merged) [
  | some current ↦
      collect_imports (insert (import_use_key item) (absorb_import current item) merged) items
  | none ↦ collect_imports (insert (import_use_key item) item merged) items
]

-- The second loop, for one import.
unfoldable pub tidy_import : ImportUse → ImportUse
tidy_import item = record item {
  locations = sorted_locations item.locations;
  provenance = unique_sorted item.provenance;
  confidence_reason_codes = unique_sorted item.confidence_reason_codes;
}

unfoldable pub import_use_less : ImportUse → ImportUse → Bool
import_use_less a b =
    if str_eq a.module_name b.module_name
    then is_lt (compare_str a.name b.name)
    else is_lt (compare_str a.module_name b.module_name)

-- `mergeImportUses`.
unfoldable pub merge_import_uses : List ImportUse → List ImportUse → List ImportUse
merge_import_uses left right =
    sort_by import_use_less (map tidy_import (values (collect_imports [] (left ++ right))))

abbrev pub is_used_in : List ImportUse → ImportUse → Bool
is_used_in used item = any (λ other. str_eq (import_use_key other) (import_use_key item)) used

-- `filterUsedOverlaps`.
unfoldable pub filter_used_overlaps : List ImportUse → List ImportUse → List ImportUse
filter_used_overlaps [] used = []
filter_used_overlaps (item ∷ items) used =
    let rest = filter_used_overlaps items used in if is_used_in used item then rest else item ∷ rest
