-- ===== src/Merge/Advice.antt =====
-- internal/analysis/merge.go: risk cues, recommendations, codemods and the uncertainty of usage.
use lopper.Prelude.{
  ℕ, zero, suc, ◌+◌, ◌-◌, ◌/◌, ◌%◌, Bool, true, false, List, [], ◌∷◌, ◌++◌, Option, none, some, ltb,
  if◌then◌else◌, length, take,
}
use lopper.Prelude.Sort.{is_lt}
use lopper.Text.{Str, codes, str_eq, compare_str, trim_space, to_lower}
use lopper.Model.Parts.{
  RiskCue, Recommendation, CodemodReport, CodemodSuggestion, CodemodSkip, UsageUncertainty,
}
use lopper.Merge.Unique.{merge_unique_sorted}

-- `riskCueKey` and the `less` of `sortRiskCues`.
abbrev risk_cue_key : RiskCue → Str
risk_cue_key item = item.code ++ 0 ∷ item.severity

abbrev risk_cue_less : RiskCue → RiskCue → Bool
risk_cue_less a b = is_lt (compare_str a.code b.code)

-- `mergeRiskCues`.
unfoldable pub merge_risk_cues : List RiskCue → List RiskCue → List RiskCue
merge_risk_cues = merge_unique_sorted risk_cue_key risk_cue_less

-- `recommendationPriorityRank`.
unfoldable pub recommendation_priority_rank : Str → ℕ
recommendation_priority_rank priority =
    let lowered = to_lower (trim_space priority) in
    if str_eq lowered (codes "high")
    then 0
    else if str_eq lowered (codes "medium")
    then 1
    else if str_eq lowered (codes "low")
    then 2
    else 3

-- `recommendationLess`.
unfoldable pub recommendation_less : Recommendation → Recommendation → Bool
recommendation_less left right =
    if str_eq left.priority right.priority
    then is_lt (compare_str left.code right.code)
    else ltb (recommendation_priority_rank left.priority)
        (recommendation_priority_rank right.priority)

abbrev recommendation_key : Recommendation → Str
recommendation_key item = item.code

-- `mergeRecommendations`.
unfoldable pub merge_recommendations :
    List Recommendation → List Recommendation → List Recommendation
merge_recommendations = merge_unique_sorted recommendation_key recommendation_less

-- `%d`; a number has no more digits than it counts, beside the first.
unfoldable pub decimal_from : ℕ → ℕ → Str
decimal_from zero n = (b'0' + n % 10) ∷ []
decimal_from (suc rounds) n = elim (ltb n 10) [
  | true ↦ (b'0' + n) ∷ []
  | false ↦ decimal_from rounds (n / 10) ++ (b'0' + n % 10) ∷ []
]

unfoldable pub decimal : ℕ → Str
unfolding decimal_from
decimal n = decimal_from n n

unfoldable pub zeros : ℕ → Str
zeros zero = []
zeros (suc n) = b'0' ∷ zeros n

-- `%09d`.
unfoldable pub nine_digits : ℕ → Str
unfolding zeros
nine_digits n = zeros (9 - length (decimal n)) ++ decimal n

-- `codemodSuggestionKey` and `mergedSuggestionSortKey`.
unfoldable pub suggestion_key : CodemodSuggestion → Str
suggestion_key item =
    item.file ++ 0 ∷ decimal item.line ++ 0 ∷ item.import_name ++ 0 ∷ item.to_module

unfoldable pub suggestion_sort_key : CodemodSuggestion → Str
suggestion_sort_key item =
    item.file ++ b'|' ∷ nine_digits item.line ++ b'|' ∷ item.import_name ++ b'|' ∷ item.to_module

-- `codemodSkipKey` and `mergedSkipSortKey`.
unfoldable pub skip_key : CodemodSkip → Str
skip_key item = item.file ++ 0 ∷ decimal item.line ++ 0 ∷ item.import_name ++ 0 ∷ item.reason_code

unfoldable pub skip_sort_key : CodemodSkip → Str
skip_sort_key item =
    item.file ++ b'|' ∷ nine_digits item.line ++ b'|' ∷ item.reason_code ++ b'|' ∷ item.import_name

abbrev merge_suggestions : List CodemodSuggestion → List CodemodSuggestion → List CodemodSuggestion
merge_suggestions =
    merge_unique_sorted suggestion_key
      (λ a b. is_lt (compare_str (suggestion_sort_key a) (suggestion_sort_key b)))

abbrev merge_skips : List CodemodSkip → List CodemodSkip → List CodemodSkip
merge_skips =
    merge_unique_sorted skip_key (λ a b. is_lt (compare_str (skip_sort_key a) (skip_sort_key b)))

-- `mergeCodemodReport`.
unfoldable pub merge_codemod_report :
    Option CodemodReport → Option CodemodReport → Option CodemodReport
merge_codemod_report none right = right
merge_codemod_report (some left) none = some left
merge_codemod_report (some left) (some right) = some (record {
  mode = if str_eq (trim_space left.mode) [] then right.mode else left.mode;
  suggestions = merge_suggestions left.suggestions right.suggestions;
  skips = merge_skips left.skips right.skips;
  apply = none;
})

-- `mergeUsageUncertainty` where one of the two is there, with its `cappedSampleCopy`.
abbrev capped_copy : UsageUncertainty → UsageUncertainty
capped_copy usage = record usage { samples = take 5 usage.samples }

-- `mergeUsageUncertainty`.
unfoldable pub merge_usage_uncertainty :
    Option UsageUncertainty → Option UsageUncertainty → Option UsageUncertainty
merge_usage_uncertainty none none = none
merge_usage_uncertainty none (some right) = some (capped_copy right)
merge_usage_uncertainty (some left) none = some (capped_copy left)
merge_usage_uncertainty (some left) (some right) = some (record {
  confirmed_import_uses = left.confirmed_import_uses + right.confirmed_import_uses;
  uncertain_import_uses = left.uncertain_import_uses + right.uncertain_import_uses;
  samples = left.samples ++ take (5 - length left.samples) right.samples;
})
