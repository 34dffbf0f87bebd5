-- ===== src/Thresholds/Accepted.antt =====
-- The loading of a configuration in internal/thresholds/config.go validates the overrides, lays them
-- over the defaults and validates the thresholds that result: how the two validations go together.
use lopper.Prelude.{
  ◌≡◌, refl, sym, ap, Bool, true, false, List, [], ◌∷◌, Option, none, some, arith, any, All,
  Bool-cases, inl, inr, subst,
}
use lopper.Prelude.Int.{pos, negsuc}
use lopper.Prelude.Result.{ok, ◌>>◌, both-ok, ok-both}
use lopper.Text.{Str, codes, str_eq, str_eq_sound, trim_space, to_lower}
use lopper.Float.{Float64}
use lopper.Thresholds.Values.{
  Checked, ThresholdError, bad_priority, guard, Values, Overrides, normalize_priority_threshold,
  valid_priority_threshold, validate_with_sentinel, validate_fail_on_increase,
  validate_percentage_range, validate_lockfile_drift_policy, normalize_deny_list, validate_priority,
  validate_weight_set, default_removal_candidate_weights,
}
use lopper.Thresholds.Apply.{
  or_base, if_present, normalize_optional, validate_low_confidence, validate_min_usage,
  validate_max_uncertain, defaults, removal_candidate_weights, validate_value_ints,
  validate_value_strings, validate_values, validate_override_ints, validate_override_strings,
  validate_optional_weights, validate_overrides, apply,
}

-- A text that is one of a list has what each of the list has.
of_known :
    (P : Str → Type 0) (s : Str) (known : List Str)
    → any (λ k. str_eq s k) known ≡ true
    → All P known
    → P s
of_known P s [] h all = cc
of_known P s (k ∷ known) h all = elim (Bool-cases (str_eq s k)) [
  | inl same ↦ subst P (sym (str_eq_sound s k same)) all.0
  | inr other ↦ of_known P s known (ground arith) all.1
]

abbrev IsFixed : Str → Type 0
IsFixed s = normalize_priority_threshold s ≡ s

known-IsFixed :
    All IsFixed (codes "off" ∷ codes "low" ∷ codes "medium" ∷ codes "high" ∷ codes "critical" ∷ [])
unfolding normalize_priority_threshold trim_space to_lower str_eq
known-IsFixed = (refl, (refl, (refl, (refl, (refl, tt)))))

guard-ok : (b : Bool) (e : ThresholdError) → guard b e ≡ ok tt → b ≡ true
guard-ok true e h = refl
guard-ok false e h = cc

priority-fixed :
    (p : Str)
    → validate_priority p ≡ ok tt
    → normalize_priority_threshold (normalize_priority_threshold p) ≡ normalize_priority_threshold p
unfolding validate_priority valid_priority_threshold
priority-fixed p h =
    of_known IsFixed (normalize_priority_threshold p)
      (codes "off" ∷ codes "low" ∷ codes "medium" ∷ codes "high" ∷ codes "critical" ∷ [])
      (guard-ok _ _ h) known-IsFixed

or_base-step :
    {A T : Type 0} (validate : A → Checked (Unit {0})) (o : Option A) (base : A)
    {rest rest' : Checked T} {r r' : T}
    → validate base ≡ ok tt
    → (rest ≡ ok r → rest' ≡ ok r')
    → (if_present validate o >> rest) ≡ ok r
    → (validate (or_base o base) >> rest') ≡ ok r'
or_base-step validate none base valid later h = ok-both valid (later h)
or_base-step validate (some value) base {rest} valid later h =
    let both = both-ok (validate value) rest h in ok-both both.0 (later both.1)

or_base-last :
    {A : Type 0} (validate : A → Checked (Unit {0})) (o : Option A) (base : A)
    → validate base ≡ ok tt
    → if_present validate o ≡ ok tt
    → validate (or_base o base) ≡ ok tt
or_base-last validate none base valid h = valid
or_base-last validate (some value) base valid h = h

twice_valid :
    (p : Str)
    → validate_priority p ≡ ok tt
    → validate_priority (normalize_priority_threshold (normalize_priority_threshold p)) ≡ ok tt
unfolding validate_priority valid_priority_threshold
twice_valid p h =
    simp (priority-fixed p h)
      (ap (λ b. guard b (bad_priority (normalize_priority_threshold p))) (guard-ok _ _ h))

-- What `Validate` leaves of a priority is as valid as the priority.
priority-valid_again :
    (o : Option Str)
    → if_present validate_priority o ≡ ok tt
    → validate_priority (or_base (normalize_optional (normalize_optional o)) (codes "off")) ≡ ok tt
unfolding validate_priority valid_priority_threshold normalize_priority_threshold trim_space
    to_lower str_eq
priority-valid_again none h = refl
priority-valid_again (some p) h = twice_valid p h

module _ (float : Float64) where
  value_ints-valid :
      (o : Overrides float)
      → validate_override_ints float o ≡ ok tt
      → validate_value_ints float (apply float o (defaults float)) ≡ ok tt
  unfolding validate_override_ints validate_value_ints apply validate_with_sentinel
      validate_percentage_range
  value_ints-valid o =
      or_base-step validate_fail_on_increase o.fail_on_increase_percent (negsuc 0) refl (
        or_base-step validate_low_confidence o.low_confidence_warning_percent (pos 40) refl (
          or_base-step validate_min_usage o.min_usage_percent_for_recommendations (pos 40) refl
            (or_base-last validate_max_uncertain o.max_uncertain_import_count (negsuc 0) refl)))

  value_strings-valid :
      (o o' : Overrides float)
      → validate_override_strings float o ≡ ok tt
      → o'.lockfile_drift_policy ≡ o.lockfile_drift_policy
      → o'.reachable_vulnerability_priority ≡ normalize_optional o.reachable_vulnerability_priority
      → validate_value_strings float (apply float o' (defaults float)) ≡ ok tt
  unfolding validate_override_strings validate_value_strings apply validate_lockfile_drift_policy
      str_eq
  value_strings-valid o o' h same normal =
      rw (same, normal)
        (or_base-step validate_lockfile_drift_policy o.lockfile_drift_policy (codes "warn") refl
          (priority-valid_again o.reachable_vulnerability_priority) h)

  weights-valid :
      (o : Overrides float)
      → validate_weight_set float (default_removal_candidate_weights float) ≡ ok tt
      → validate_optional_weights float o ≡ ok tt
      → validate_weight_set float (removal_candidate_weights float (apply float o (defaults float)))
        ≡ ok tt
  unfolding validate_optional_weights apply
  weights-valid o base h = ground arith

  -- If the overrides of a configuration are accepted, then so are the thresholds that they give over
  -- the defaults, provided that the default weights are accepted.
  pub apply-accepted :
      (o o' : Overrides float)
      → validate_weight_set float (default_removal_candidate_weights float) ≡ ok tt
      → validate_overrides float o ≡ ok o'
      → (v : Values float) × (validate_values float (apply float o' (defaults float)) ≡ ok v)
  unfolding validate_overrides validate_values
  apply-accepted o o' base h =
      let (ints, after_ints) = both-ok (validate_override_ints float o) _ h in
      let (weights, after_weights) = both-ok (validate_optional_weights float o) _ after_ints in
      let (strings, same) = both-ok (validate_override_strings float o) _ after_weights in
      let left : Overrides float = record o {
        license_deny_list = normalize_deny_list o.license_deny_list;
        reachable_vulnerability_priority = normalize_optional o.reachable_vulnerability_priority;
      } in
      let kept : left ≡ o' = cc same in
      subst
        (λ w. (v : Values float) × (validate_values float (apply float w (defaults float)) ≡ ok v))
        kept
        (
          _,
          ok-both (value_ints-valid left (unfold validate_override_ints in ints)) (
              ok-both (weights-valid left base (unfold validate_optional_weights in weights))
                (ok-both (value_strings-valid o left strings refl refl) refl)),
        )
