-- ===== src/Osv/Timeline.antt =====
-- `semanticTimelineAffectsVersion` of internal/report/osv_versions.go: which event decides.
use lopper.Prelude.{◌≡◌, ◌↔◌, ◌⊎◌, inl, inr, Bool, true, false, List, [], ◌∷◌, arith, All}
use lopper.Text.{Str}
use lopper.Semver.{Semver}
use lopper.Osv.Events.{EventKind, introduced, fixed, last_affected, limit, SemanticEvent}
use lopper.Osv.Match.{osv_order, is_ge, is_gt, apply_event, timeline_from, timeline_affects}

module _ (semver : Semver) (installed : Str) where
  -- The event is an introduction at or before the installed version.
  abbrev pub starts : EventKind → Str → Bool
  starts introduced version = is_ge (osv_order semver installed version)
  starts _ version = false

  -- The event is a fix at or before the installed version, or a last affected version before it.
  abbrev pub ends : EventKind → Str → Bool
  ends fixed version = is_ge (osv_order semver installed version)
  ends last_affected version = is_gt (osv_order semver installed version)
  ends _ version = false

  abbrev pub NoEnd : List SemanticEvent → Type 0
  NoEnd timeline = All (λ e. ends e.kind e.version ≡ false) timeline

  -- Some introduction at or before the version is followed by no end.
  abbrev pub IsOpen : List SemanticEvent → Type 0
  IsOpen [] = ⊥
  IsOpen (e ∷ timeline) = ((starts e.kind e.version ≡ true) × NoEnd timeline) ⊎ IsOpen timeline

  apply_event-true :
      (was : Bool) (kind : EventKind) (version : Str)
      → (apply_event semver installed was kind version ≡ true)
        ↔ ((starts kind version ≡ true) ⊎ ((was ≡ true) × (ends kind version ≡ false)))
  unfolding apply_event
  apply_event-true was introduced version = (ground arith, ground arith)
  apply_event-true was fixed version = (ground arith, ground arith)
  apply_event-true was last_affected version = (ground arith, ground arith)
  apply_event-true was limit version = (ground arith, ground arith)

  from_true :
      (was : Bool) (timeline : List SemanticEvent)
      → timeline_from semver was timeline installed ≡ true
      → ((was ≡ true) × NoEnd timeline) ⊎ IsOpen timeline
  unfolding timeline_from
  from_true was [] h = inl (h, tt)
  from_true was (e ∷ timeline) h =
      elim (from_true (apply_event semver installed was e.kind e.version) timeline h) [
        | inr open_later ↦ inr (inr open_later)
        | inl (now, rest) ↦ elim ((apply_event-true was e.kind e.version).0 now) [
          | inl start ↦ inr (inl (start, rest))
          | inr (before, none_here) ↦ inl (before, (none_here, rest))
        ]
      ]

  true_from :
      (was : Bool) (timeline : List SemanticEvent)
      → ((was ≡ true) × NoEnd timeline) ⊎ IsOpen timeline
      → timeline_from semver was timeline installed ≡ true
  unfolding timeline_from
  true_from was [] (inl h) = h.0
  true_from was [] (inr h) = absurd h
  true_from was (e ∷ timeline) (inl (before, (here, rest))) =
      true_from (apply_event semver installed was e.kind e.version) timeline
        (inl ((apply_event-true was e.kind e.version).1 (inr (before, here)), rest))
  true_from was (e ∷ timeline) (inr (inl (start, rest))) =
      true_from (apply_event semver installed was e.kind e.version) timeline
        (inl ((apply_event-true was e.kind e.version).1 (inl start), rest))
  true_from was (e ∷ timeline) (inr (inr later)) =
      true_from (apply_event semver installed was e.kind e.version) timeline (inr later)

  -- The timeline affects the installed version exactly when it has an introduction at or before that
  -- version after which there stands neither a fix at or before it nor a last affected version that
  -- is before it.
  pub timeline_affects_iff :
      (timeline : List SemanticEvent)
      → (timeline_affects semver timeline installed ≡ true) ↔ IsOpen timeline
  unfolding timeline_affects
  timeline_affects_iff timeline = (
    λ h. elim (from_true false timeline h) [ inl (never, _) ↦ cc | inr open_here ↦ open_here ],
    λ open_here. true_from false timeline (inr open_here),
  )
