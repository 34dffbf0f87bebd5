-- ===== src/Tests/Languages.antt =====
-- The theorems on internal/language at two adapters.
use lopper.Prelude.{ℕ, ◌≡◌, refl, true, false, [], ◌∷◌, Option, none, some, All, ◌⊎◌, if◌then◌else◌}
use lopper.Prelude.Int.{ℤ, pos}
use lopper.Prelude.Result.{ok}
use lopper.Prelude.Sort.{sort_by}
use lopper.Text.{Str, codes, str_eq, trim_space, to_lower}
use lopper.Dict.{lookup, insert, values}
use lopper.Language.Adapter.{Adapter, Detection, Candidate, Checked}
use lopper.Language.Registry.{
  Adapters, register, register_ids, check_ids, normalize_id, detect_from, detect_adapter,
  detect_matches, normalize_detection, clamp_confidence, candidate_less, resolve_auto,
}
use lopper.Language.Registering.{names, register_lem}
use lopper.Language.Choice.{IsAutoChoice, resolve_auto-best}
use lopper.Language.Confidence.{IsPercent, detect_matches-AllPercent}

abbrev reporting : ℤ → Str → Checked Detection
reporting confidence path = ok (record { matched = true; confidence = confidence; roots = [] })

abbrev js_adapter : Adapter
js_adapter = record {
  id = codes "js-ts";
  aliases = codes "JS" ∷ [];
  detect = λ path. ok true;
  detect_with_confidence = some (reporting (pos 250));
}

abbrev go_adapter : Adapter
go_adapter = record {
  id = codes "go";
  aliases = [];
  detect = λ path. ok true;
  detect_with_confidence = none;
}

abbrev only_go : Adapters
only_go = (codes "go", go_adapter) ∷ []

abbrev both_adapters : Adapters
both_adapters =
    (codes "go", go_adapter) ∷ (codes "js-ts", js_adapter) ∷ (codes "js", js_adapter) ∷ []

registers : register (some js_adapter) only_go ≡ ok both_adapters
unfolding register register_ids check_ids normalize_id trim_space to_lower str_eq lookup insert
registers = refl

register_lem_example :
    (lookup (codes "js") both_adapters ≡ (
      if names (codes "js") (codes "js-ts" ∷ codes "JS" ∷ [])
      then some js_adapter
      else lookup (codes "js") only_go))
    × ((names (codes "js") (codes "js-ts" ∷ codes "JS" ∷ []) ≡ false)
        ⊎ (lookup (codes "js") only_go ≡ none))
register_lem_example = register_lem js_adapter only_go both_adapters (codes "js") registers

abbrev absolute : Str → Option Str
absolute path = some path

abbrev found : ℕ → Adapter → Candidate
found n adapter = record {
  adapter = adapter;
  detection = record { matched = true; confidence = pos n; roots = codes "/repo" ∷ [] };
}

detected :
    detect_from absolute (codes "/repo") none [] (values both_adapters)
    ≡ ok (found 60 go_adapter ∷ found 100 js_adapter ∷ [])
unfolding detect_from detect_adapter normalize_detection clamp_confidence values str_eq
detected = refl

resolve_auto-best_example :
    IsAutoChoice
      (found 60 go_adapter ∷ found 100 js_adapter ∷ [])
      (resolve_auto absolute both_adapters (codes "/repo") none)
resolve_auto-best_example =
    resolve_auto-best absolute both_adapters (codes "/repo") none
      (found 60 go_adapter ∷ found 100 js_adapter ∷ []) detected

sorted :
    detect_matches absolute both_adapters (codes "/repo") none
    ≡ ok (found 100 js_adapter ∷ found 60 go_adapter ∷ [])
unfolding detect_matches detect_from detect_adapter normalize_detection clamp_confidence values
    str_eq sort_by candidate_less
sorted = refl

detect_matches-AllPercent_example :
    All (λ c. IsPercent c.detection.confidence) (found 100 js_adapter ∷ found 60 go_adapter ∷ [])
detect_matches-AllPercent_example =
    detect_matches-AllPercent absolute both_adapters (codes "/repo") none
      (found 100 js_adapter ∷ found 60 go_adapter ∷ []) sorted
