-- ===== src/Vulnerability/Decisions.antt =====
-- internal/report/vulnerability.go: the decision that exceptions give a finding.
use lopper.Prelude.{
  Bool, true, false, List, [], ◌∷◌, ◌++◌, append_assoc, append-nil, Option, none, some, ◌≡◌, refl,
  sym, subst, leb, ltb, All, All-map, All-snoc, arith, inl, inr, ◌⊎◌, if_cases,
}
use lopper.Text.{Str}
use lopper.Float.{Float64}
use lopper.Purl.{Url}
use lopper.Model.Dependency.{DependencyReport, VulnerabilityFinding, VulnerabilityExceptionDecision}
use lopper.Vulnerability.Exceptions.{
  VulnerabilityException, Platform, specificity, better, best_exception, exception_matches, decide,
  exception_decision,
}

module _ (matches : VulnerabilityException → Bool) where
  -- The exception matches; no match before it is more specific, and those after it are less specific.
  pub record IsBest (before : List VulnerabilityException) (best : VulnerabilityException)
      (after : List VulnerabilityException) : Type 0 where
    pub fits : matches best ≡ true
    pub from_before :
        All
          (λ other. matches other ≡ true → leb (specificity other) (specificity best) ≡ true)
          before
    pub above_after :
        All
          (λ other. matches other ≡ true → ltb (specificity other) (specificity best) ≡ true)
          after

  abbrev pub NoMatch : List VulnerabilityException → Type 0
  NoMatch exceptions = All (λ other. matches other ≡ false) exceptions

  -- The exceptions that were seen, and the one that is best so far.
  Reached : List VulnerabilityException → Option VulnerabilityException → Type 0
  Reached seen none = NoMatch seen
  Reached seen (some best) =
      (before : List VulnerabilityException) × (after : List VulnerabilityException) × (seen
        ≡ before ++ best ∷ after)
      × IsBest before best after

  AtMost : VulnerabilityException → VulnerabilityException → Type 0
  AtMost best other = matches other ≡ true → leb (specificity other) (specificity best) ≡ true

  seen-AtMost :
      (next best : VulnerabilityException) (before after : List VulnerabilityException)
      → IsBest before best after
      → leb (specificity best) (specificity next) ≡ true
      → All (AtMost next) (before ++ best ∷ after)
  unfolding AtMost
  seen-AtMost next best [] after v h =
      (λ _. h, All-map (λ other below fits. ground (arith, below fits)) after v.above_after)
  seen-AtMost next best (other ∷ before) after v h = (
    λ fits. ground (arith, v.from_before.0 fits),
    seen-AtMost next best before after
        (record { fits = v.fits; from_before = v.from_before.1; above_after = v.above_after }) h,
  )

  seen-skip :
      (seen : List VulnerabilityException) (next : VulnerabilityException)
      (best : Option VulnerabilityException)
      → (matches next ≡ true
          → (b : VulnerabilityException) → best ≡ some b
          → ltb (specificity next) (specificity b) ≡ true)
      → (best ≡ none → matches next ≡ false)
      → Reached seen best
      → Reached (seen ++ next ∷ []) best
  unfolding Reached
  seen-skip seen next none below skip h = All-snoc _ seen next h (skip refl)
  seen-skip seen next (some best) below skip (before, after, e, v) = (
    before,
    after ++ next ∷ [],
    rw e (append_assoc before (best ∷ after) (next ∷ [])),
    record {
      fits = v.fits;
      from_before = v.from_before;
      above_after = All-snoc _ after next v.above_after (λ fits. below fits best refl);
    },
  )

  -- A match that nothing seen outranks.
  seen-take :
      (seen : List VulnerabilityException) (next : VulnerabilityException)
      → matches next ≡ true
      → All (AtMost next) seen
      → Reached (seen ++ next ∷ []) (some next)
  unfolding Reached AtMost
  seen-take seen next fits below =
      (seen, [], refl, record { fits = fits; from_before = below; above_after = tt })

  better-Reached :
      (seen : List VulnerabilityException) (best : Option VulnerabilityException)
      (next : VulnerabilityException)
      → matches next ≡ true
      → Reached seen best
      → Reached (seen ++ next ∷ []) (better best next)
  unfolding better Reached AtMost
  better-Reached seen none next fits h =
      seen-take seen next fits (All-map (λ other differs same. ground arith) seen h)
  better-Reached seen (some best) next fits (before, after, e, v) =
      if_cases (Reached (seen ++ next ∷ [])) (leb (specificity best) (specificity next)) _ _
        (λ p.
          seen-take seen next fits
            (subst (All (AtMost next)) (sym e) (seen-AtMost next best before after v p)))
        (λ p.
          seen-skip seen next (some best) (λ _ b q. ground arith) (λ q. ground arith)
            (before, after, e, v))

  best_exception-Reached :
      (seen exceptions : List VulnerabilityException) (best : Option VulnerabilityException)
      → Reached seen best
      → Reached (seen ++ exceptions) (best_exception matches best exceptions)
  unfolding best_exception
  best_exception-Reached seen [] best h = subst (λ x. Reached x best) (sym (append-nil seen)) h
  best_exception-Reached seen (next ∷ exceptions) best h =
      subst (λ x. Reached x (best_exception matches best (next ∷ exceptions)))
        (append_assoc seen (next ∷ []) exceptions)
        (best_exception-Reached (seen ++ next ∷ []) exceptions _ (
          if_cases (Reached (seen ++ next ∷ [])) (matches next) (better best next) best
            (λ fits. better-Reached seen best next fits h)
            (λ skip. seen-skip seen next best (λ fits. ground arith) (λ _. skip) h)))

module _ (float : Float64) (url : Url) (platform : Platform) where
  -- Nothing matches and there is no decision, or the decision is that of the best match.
  abbrev pub Decided :
      (VulnerabilityException → Bool)
      → List VulnerabilityException
      → platform.Instant
      → Option VulnerabilityExceptionDecision
      → Type 0
  Decided matches exceptions now decision =
      ((decision ≡ none) × NoMatch matches exceptions)
      ⊎ ((before : List VulnerabilityException) × (best : VulnerabilityException) × (after : List
            VulnerabilityException)
          × (exceptions ≡ before ++ best ∷ after)
          × IsBest matches before best after
          × (decision ≡ some (decide float url platform best now)))

  Reached-Decided :
      (matches : VulnerabilityException → Bool) (exceptions : List VulnerabilityException)
      (now : platform.Instant) (found : Option VulnerabilityException)
      → Reached matches exceptions found
      → Decided matches exceptions now
          (elim found [ none ↦ none | some best ↦ some (decide float url platform best now) ])
  unfolding Reached
  Reached-Decided matches exceptions now none h = inl (refl, h)
  Reached-Decided matches exceptions now (some best) (before, after, e, v) =
      inr (before, best, after, e, v, refl)

  -- Where an exception matches a finding, the decision on the finding is the one that follows from a
  -- match that no other match exceeds in specificity, the last of those in the order of the
  -- exceptions. Where none matches, there is no decision.
  pub exception_decision-best :
      (finding : VulnerabilityFinding float) (dep : DependencyReport float) (repo_path : Str)
      (exceptions : List VulnerabilityException) (now : platform.Instant)
      → Decided
          (λ exception. exception_matches float url platform exception finding dep repo_path)
          exceptions
          now
          (exception_decision float url platform finding dep repo_path exceptions now)
  unfolding exception_decision Reached
  exception_decision-best finding dep repo_path exceptions now =
      let matches = λ (exception : VulnerabilityException).
        exception_matches float url platform exception finding dep repo_path in
      Reached-Decided matches exceptions now (best_exception matches none exceptions)
        (best_exception-Reached matches [] exceptions none tt)
