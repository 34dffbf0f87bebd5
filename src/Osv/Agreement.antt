-- ===== src/Osv/Agreement.antt =====
-- The two evaluations of a range in internal/report/osv_versions.go, where both apply.
use lopper.Prelude.{◌≡◌, List, [], ◌∷◌, arith, none, some, Option-cases, inl, inr}
use mathlib.Core.Option
use lopper.Prelude.Order.{flip}
use lopper.Text.{Str, codes, str_eq_iff, trim_space}
use lopper.Semver.{Semver, compare_semantic_versions-flipped}
use lopper.Osv.Events.{
  VersionEvent, EventKind, introduced, fixed, read_event, parse_range, compare_trimmed, compare_osv,
}
use lopper.Osv.Match.{osv_order, semver_range_match, ecosystem_bounds, ecosystem_range_match}

module _ (semver : Semver) where
  compare_trimmed-flipped :
      (left right : Str)
      → compare_trimmed semver right left ≡ Option.map flip (compare_trimmed semver left right)
  unfolding compare_trimmed
  compare_trimmed-flipped left right = ground (
    arith,
    str_eq_iff left right,
    str_eq_iff right left,
    str_eq_iff left (codes "0"),
    str_eq_iff right (codes "0"),
    compare_semantic_versions-flipped semver left right,
  )

  pub osv_order-flipped :
      (left right : Str) → osv_order semver right left ≡ flip (osv_order semver left right)
  unfolding compare_osv
  osv_order-flipped left right =
      ground (arith, compare_trimmed-flipped (trim_space left) (trim_space right))

  agree :
      (first second : VersionEvent) (k l : EventKind) (v w : Str) (installed : Str)
      {bounds : Str × Str}
      → read_event semver first ≡ some (record { kind = k; version = v })
      → read_event semver second ≡ some (record { kind = l; version = w })
      → ecosystem_bounds semver (first ∷ second ∷ []) ≡ some bounds
      → semver_range_match semver (first ∷ second ∷ []) installed
        ≡ ecosystem_range_match semver (first ∷ second ∷ []) installed
  unfolding ecosystem_range_match semver_range_match parse_range
  agree first second introduced fixed v w installed p q h = ground (arith, osv_order-flipped v w)
  agree first second fixed introduced v w installed p q h = ground (arith, osv_order-flipped v w)
  agree first second _ _ v w installed p q h = ground arith

  unreadable_first :
      (first second : VersionEvent)
      → read_event semver first ≡ none
      → {bounds : Str × Str} → ecosystem_bounds semver (first ∷ second ∷ []) ≡ some bounds
      → ⊥
  unfolding ecosystem_bounds
  unreadable_first first second unread h = ground arith

  unreadable_second :
      (first second : VersionEvent)
      → read_event semver second ≡ none
      → {bounds : Str × Str} → ecosystem_bounds semver (first ∷ second ∷ []) ≡ some bounds
      → ⊥
  unfolding ecosystem_bounds
  unreadable_second first second unread h = ground arith

  -- Where the events are one introduction and one fix above it, a SEMVER range and an ECOSYSTEM
  -- range with those events give the same answer, whatever the order of the two events.
  pub semver-ecosystem_range_match :
      (events : List VersionEvent) (installed : Str) {bounds : Str × Str}
      → ecosystem_bounds semver events ≡ some bounds
      → semver_range_match semver events installed ≡ ecosystem_range_match semver events installed
  unfolding ecosystem_bounds
  semver-ecosystem_range_match (first ∷ second ∷ []) installed h =
      elim (Option-cases (read_event semver first)) [
        | inl unread ↦ absurd (unreadable_first first second unread h)
        | inr (e, p) ↦ elim (Option-cases (read_event semver second)) [
          | inl unread ↦ absurd (unreadable_second first second unread h)
          | inr (f, q) ↦ agree first second e.kind f.kind e.version f.version installed p q h
        ]
      ]
  semver-ecosystem_range_match _ installed h = ground arith
