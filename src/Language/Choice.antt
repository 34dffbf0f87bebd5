-- ===== src/Language/Choice.antt =====
-- The choices of internal/language/registry.go: the automatic choice among matches.
use mathlib.Core.List.{Perm}
use mathlib.Core.List.Perm
use lopper.Prelude.{
  ◌≡◌, sym, Bool, true, false, List, [], ◌∷◌, Option, arith, All, All-map, Bool-cases, inl, inr,
}
use lopper.Prelude.Int.{◌≤ℤ◌, ◌<ℤ◌, eqb_ℤ}
use lopper.Prelude.Result.{ok, err}
use lopper.Prelude.Sort.{sort_by, sort_by-perm}
use lopper.Prelude.Sorted.{Pairwise, sort_by-Pairwise}
use lopper.Text.{Str}
use lopper.Dict.{values}
use lopper.Language.Adapter.{Adapter, Candidate, Checked, no_match, multiple_languages}
use lopper.Language.Registry.{
  Adapters, candidate_less, choose_auto, detect_from, detect_matches, resolve_auto,
}

-- The first goes in front of the second where its confidence is not below.
abbrev NotBelow : Candidate → Candidate → Type 0
NotBelow a b = b.detection.confidence ≤ℤ a.detection.confidence

less-NotBelow : (a b : Candidate) → candidate_less a b ≡ true → NotBelow a b
unfolding candidate_less
less-NotBelow a b h = ground arith

other-NotBelow : (a b : Candidate) → candidate_less a b ≡ false → NotBelow b a
unfolding candidate_less
other-NotBelow a b h = ground arith

candidates-Pairwise :
    (matches : List Candidate) → Pairwise NotBelow (sort_by candidate_less matches)
candidates-Pairwise =
    sort_by-Pairwise NotBelow candidate_less less-NotBelow other-NotBelow λ a b c p q. omega arith

-- What `resolveAuto` may answer on these matches: the one match whose confidence is above that of
-- each other, no match where there is none, or several languages where two matches share a confidence
-- that none exceeds.
pub data IsAutoChoice (found : List Candidate) : Checked (List Candidate) → Type 0 where
  chosen :
      (best : Candidate) (others : List Candidate)
      → Perm (best ∷ others) found
      → All (λ c. c.detection.confidence <ℤ best.detection.confidence) others
      → IsAutoChoice found (ok (best ∷ []))
  missing : found ≡ [] → IsAutoChoice found (err no_match)
  tied :
      (a b : Candidate) (others : List Candidate)
      → Perm (a ∷ b ∷ others) found
      → a.detection.confidence ≡ b.detection.confidence
      → All (NotBelow a) others
      → IsAutoChoice found (err multiple_languages)

choose_auto_lem :
    (found matches : List Candidate)
    → Perm matches found
    → Pairwise NotBelow matches
    → IsAutoChoice found (choose_auto matches)
unfolding choose_auto
choose_auto_lem found [] p sorted = IsAutoChoice.missing (sym (Perm.nil-eq p))
choose_auto_lem found (first ∷ []) p sorted = IsAutoChoice.chosen first [] p tt
choose_auto_lem found (first ∷ second ∷ rest) p sorted =
    elim (Bool-cases (eqb_ℤ first.detection.confidence second.detection.confidence)) [
      | inl same ↦
          rw (same, choose_auto) (IsAutoChoice.tied first second rest p (ground arith) sorted.0.1)
      | inr other ↦
          let below : second.detection.confidence <ℤ first.detection.confidence = ground arith in
          rw (other, choose_auto)
            (IsAutoChoice.chosen first (second ∷ rest) p
              (below, All-map (λ z (q : NotBelow second z). omega arith) rest sorted.1.0))
    ]

-- Where the detection succeeds, `resolveAuto` returns the one match whose confidence is above that of
-- each other match; or it answers that there is no match, and there is none; or that there are several
-- languages, and two matches share a confidence that none exceeds.
pub resolve_auto-best :
    (abs_path : Str → Option Str) (adapters : Adapters) (repo_path : Str)
    (filter : Option (Adapter → Bool)) (found : List Candidate)
    → detect_from abs_path repo_path filter [] (values adapters) ≡ ok found
    → IsAutoChoice found (resolve_auto abs_path adapters repo_path filter)
unfolding resolve_auto detect_matches
resolve_auto-best abs_path adapters repo_path filter found detected = rw detected (
    choose_auto_lem found (sort_by candidate_less found) (sort_by-perm candidate_less found)
      (candidates-Pairwise found))
