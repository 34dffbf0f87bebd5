-- ===== src/Language/Confidence.antt =====
-- internal/language/registry.go: the confidences of matches.
use lopper.Prelude.{
  ◌≡◌, refl, Bool, true, false, not, List, [], ◌∷◌, Option, arith, All, Option-cases, if_cases, inl,
  inr, if◌then◌else◌, ◌⊎◌,
}
use lopper.Prelude.Int.{ℤ, pos, ◌≤ℤ◌}
use lopper.Prelude.Result.{ok, Ensures, Ensures-bind, of_Ensures}
use lopper.Prelude.Sort.{All-sort_by}
use lopper.Text.{Str}
use lopper.Dict.{values}
use lopper.Language.Adapter.{Adapter, Candidate, Detection}
use lopper.Language.Registry.{
  Adapters, candidate_less, detect_matches, clamp_confidence, normalize_detection, detect_adapter,
  detect_from, is_seen, adapter_allowed,
}

-- From 1 to 100 for a match.
abbrev pub IsPercent : ℤ → Type 0
IsPercent value = (pos 1 ≤ℤ value) × (value ≤ℤ pos 100)

module _ (abs_path : Str → Option Str) (repo_path : Str) where
  -- A detection of an adapter, if it is a match.
  abbrev IsBounded : Detection → Type 0
  IsBounded d = (d.matched ≡ false) ⊎ IsPercent d.confidence

  clamped-IsBounded :
      (d : Detection)
      → IsBounded (
          normalize_detection abs_path repo_path
            (record d { confidence = clamp_confidence d.confidence }))
  unfolding normalize_detection clamp_confidence
  clamped-IsBounded d = ground arith

  plain-IsBounded :
      (found : Bool)
      → IsBounded (
          if not found
          then record { matched = false; confidence = pos 0; roots = [] }
          else normalize_detection abs_path repo_path
              (record { matched = true; confidence = pos 60; roots = [] }))
  unfolding normalize_detection
  plain-IsBounded true = inr (omega arith)
  plain-IsBounded false = inl refl

  detect_adapter-IsBounded :
      (adapter : Adapter) → Ensures IsBounded (detect_adapter abs_path adapter repo_path)
  unfolding detect_adapter
  detect_adapter-IsBounded adapter = elim (Option-cases adapter.detect_with_confidence) [
    | inl e ↦
        rw (e, detect_adapter)
          (Ensures-bind IsBounded (adapter.detect repo_path) _ (λ found p. plain-IsBounded found))
    | inr (detect, e) ↦
        rw (e, detect_adapter)
          (Ensures-bind IsBounded (detect repo_path) _ (λ d p. clamped-IsBounded d))
  ]

  abbrev AllBounded : List Candidate → Type 0
  AllBounded found = All (λ c. IsPercent c.detection.confidence) found

  cons-AllBounded :
      (adapter : Adapter) (d : Detection) (found : List Candidate)
      → IsBounded d
      → AllBounded found
      → AllBounded
          (if d.matched then record { adapter = adapter; detection = d } ∷ found else found)
  cons-AllBounded adapter d found (inl e) h = rw e h
  cons-AllBounded adapter d found (inr b) h =
      if_cases AllBounded d.matched _ _ (λ _. (b, h)) (λ _. h)

  -- Every match that the loop of `detectMatches` finds has a confidence from 1 to 100.
  detect_from-AllBounded :
      (filter : Option (Adapter → Bool)) (seen : List Str) (adapters : List Adapter)
      → Ensures AllBounded (detect_from abs_path repo_path filter seen adapters)
  unfolding detect_from
  detect_from-AllBounded filter seen [] = tt
  detect_from-AllBounded filter seen (adapter ∷ adapters) =
      let rest = detect_from-AllBounded filter (adapter.id ∷ seen) adapters in
      if_cases (Ensures AllBounded) (is_seen adapter seen) _ _
        (λ _. detect_from-AllBounded filter seen adapters)
        (λ _.
          if_cases (Ensures AllBounded) (not (adapter_allowed filter adapter)) _ _ (λ _. rest)
            (λ _. Ensures-bind AllBounded (detect_adapter abs_path adapter repo_path) _ λ d p.
              Ensures-bind AllBounded
                (detect_from abs_path repo_path filter (adapter.id ∷ seen) adapters) _
                λ found q.
                  cons-AllBounded adapter d found
                    (of_Ensures IsBounded _ (detect_adapter-IsBounded adapter) p)
                    (of_Ensures AllBounded _ rest q)))

-- Every match of `detectMatches` has a confidence from 1 to 100, whatever the adapters report.
pub detect_matches-AllPercent :
    (abs_path : Str → Option Str) (adapters : Adapters) (repo_path : Str)
    (filter : Option (Adapter → Bool)) (matches : List Candidate)
    → detect_matches abs_path adapters repo_path filter ≡ ok matches
    → All (λ c. IsPercent c.detection.confidence) matches
unfolding detect_matches
detect_matches-AllPercent abs_path adapters repo_path filter matches h =
    of_Ensures (AllBounded abs_path repo_path) _
      (Ensures-bind (AllBounded abs_path repo_path)
        (detect_from abs_path repo_path filter [] (values adapters)) _
        λ found p. All-sort_by _ candidate_less found (
          of_Ensures (AllBounded abs_path repo_path) _
            (detect_from-AllBounded abs_path repo_path filter [] (values adapters)) p))
      h
