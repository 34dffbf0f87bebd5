-- ===== src/Vulnerability/Ranks.antt =====
-- internal/report/vulnerability.go: severities, priorities and statuses as texts and as ranks.
use lopper.Prelude.{ℕ, Bool, false, ◌||◌, List, [], ◌∷◌, ◌++◌, leb, ltb, if◌then◌else◌, map}
use lopper.Text.{Str, codes, str_eq, trim_space, to_lower}
use lopper.Text.Ascending.{sort_strings, has}

-- `strings.ToLower(strings.TrimSpace(value))`.
unfoldable pub lowered : Str → Str
lowered value = to_lower (trim_space value)

-- `normalizeSeverity`.
unfoldable pub normalize_severity : Str → Str
normalize_severity value =
    let s = lowered value in
    if str_eq s (codes "critical") || str_eq s (codes "crit")
    then codes "critical"
    else if str_eq s (codes "high")
    then codes "high"
    else if str_eq s (codes "medium") || str_eq s (codes "moderate")
    then codes "medium"
    else if str_eq s (codes "low")
    then codes "low"
    else codes "unknown"

-- `severityRank`.
unfoldable pub severity_rank : Str → ℕ
severity_rank severity =
    let s = normalize_severity severity in
    if str_eq s (codes "critical")
    then 4
    else if str_eq s (codes "high")
    then 3
    else if str_eq s (codes "medium")
    then 2
    else if str_eq s (codes "low")
    then 1
    else 0

-- `priorityRank`.
unfoldable pub priority_rank : Str → ℕ
priority_rank priority =
    let s = lowered priority in
    if str_eq s (codes "critical")
    then 4
    else if str_eq s (codes "high")
    then 3
    else if str_eq s (codes "medium")
    then 2
    else if str_eq s (codes "low")
    then 1
    else 0

-- `VulnerabilityPriorityMeetsThreshold`.
unfoldable pub priority_meets_threshold : Str → Str → Bool
priority_meets_threshold priority threshold =
    let t = lowered threshold in
    if str_eq t [] || str_eq t (codes "off")
    then false
    else leb (priority_rank t) (priority_rank priority)

-- `normalizeVulnerabilityDecisionStatus`.
unfoldable pub normalize_decision_status : Str → Str
normalize_decision_status status =
    if str_eq (lowered status) [] then codes "accepted-risk" else lowered status

-- `mergeAdvisoryFixedVersion`.
unfoldable pub merge_fixed_version : Str → Str → Str
merge_fixed_version existing incoming =
    if str_eq (trim_space existing) (trim_space incoming) then trim_space existing else []

-- `mergeAdvisorySeverity`.
unfoldable pub merge_severity : Str → Str → Str
merge_severity existing incoming =
    if ltb (severity_rank existing) (severity_rank incoming)
    then normalize_severity incoming
    else normalize_severity existing

-- The loop of `sortedUniqueStrings`; `out` is also `seen`.
unfoldable pub unique_trimmed : List Str → List Str → List Str
unique_trimmed out [] = out
unique_trimmed out (value ∷ values) =
    let item = trim_space value in
    unique_trimmed (if str_eq item [] || has item out then out else out ++ item ∷ []) values

-- `sortedUniqueStrings`.
unfoldable pub sorted_unique_strings : List Str → List Str
sorted_unique_strings values = sort_strings (unique_trimmed [] values)

-- The loop of `appendOSVEvaluationWarnings` of internal/report/osv_versions.go.
unfoldable pub append_new : List Str → List Str → List Str → List Str
append_new seen result [] = result
append_new seen result (warning ∷ warnings) =
    let skip = append_new seen result warnings in
    let add = append_new (warning ∷ seen) (result ++ warning ∷ []) warnings in
    if has warning seen then skip else add

-- `appendOSVEvaluationWarnings`.
unfoldable pub append_evaluation_warnings : List Str → List Str → List Str
append_evaluation_warnings existing warnings =
    append_new (map trim_space existing) existing (sorted_unique_strings warnings)
