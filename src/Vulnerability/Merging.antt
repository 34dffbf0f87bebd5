-- ===== src/Vulnerability/Merging.antt =====
-- internal/report/vulnerability.go: the severity of merged advisories.
use lopper.Prelude.{◌≤◌, ◌≡◌, refl, ◌||◌, arith, ◌⊎◌, if_cases}
use lopper.Text.{Str, codes, str_eq, trim_space, to_lower}
use lopper.Vulnerability.Ranks.{lowered, normalize_severity, severity_rank, merge_severity}

abbrev IsNormal : Str → Type 0
IsNormal s = normalize_severity s ≡ s

-- A normalized severity stays.
pub normalize_severity_idem :
    (s : Str) → normalize_severity (normalize_severity s) ≡ normalize_severity s
unfolding normalize_severity lowered trim_space to_lower str_eq
normalize_severity_idem s =
    if_cases IsNormal (str_eq (lowered s) (codes "critical") || str_eq (lowered s) (codes "crit")) _
      _ (λ _. refl)
      λ _.
        if_cases IsNormal (str_eq (lowered s) (codes "high")) _ _ (λ _. refl)
          λ _.
            if_cases IsNormal
              (str_eq (lowered s) (codes "medium") || str_eq (lowered s) (codes "moderate")) _ _
              (λ _. refl)
              λ _. if_cases IsNormal (str_eq (lowered s) (codes "low")) _ _ (λ _. refl) (λ _. refl)

severity_rank-normalize : (s : Str) → severity_rank (normalize_severity s) ≡ severity_rank s
unfolding severity_rank
severity_rank-normalize s = rw (normalize_severity_idem s)

-- The severity of two merged advisories ranks as the higher of theirs.
pub merge_severity-highest :
    (existing incoming : Str)
    → let rank = severity_rank (merge_severity existing incoming) in
      (severity_rank existing ≤ rank)
      × (severity_rank incoming ≤ rank)
      × ((rank ≡ severity_rank existing) ⊎ (rank ≡ severity_rank incoming))
unfolding merge_severity
merge_severity-highest existing incoming =
    ground (arith, severity_rank-normalize existing, severity_rank-normalize incoming)
