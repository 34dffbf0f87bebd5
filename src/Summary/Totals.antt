-- ===== src/Summary/Totals.antt =====
-- internal/report/summary.go: the counts of a summary, one dependency at a time.
use lopper.Prelude.{
  ℕ, ◌+◌, ◌≤◌, ◌≡◌, refl, sym, ◌⊎◌, Bool, true, not, ◌&&◌, List, [], ◌∷◌, ◌++◌, some, arith, All,
  All-map, any, Bool-cases, inl, inr, length, length-append, All-snoc, append-nil, append_assoc,
  subst, ltb, if◌then◌else◌,
}
use lopper.Text.{Str, str_eq, str_eq_iff, str_eq_refl, trim_space}
use lopper.Dict.{Dict, lookup, insert, has_key, lookup-insert}
use lopper.Float.{Float64}
use lopper.Model.Dependency.{DependencyReport, VulnerabilityFinding}
use lopper.Prelude.Counts.{total, total-append, count_if, one_if, any-append}
use lopper.Vulnerability.Ranks.{normalize_severity, severity_rank, priority_rank}
use lopper.Vulnerability.Scores.{finding_suppressed}
use lopper.Thresholds.Values.{normalize_priority_threshold}
use lopper.Summary.Vulnerabilities.{
  Builder, new_builder, or_zero, count_up, add_finding, add_findings,
}
use lopper.Summary.Licenses.{
  LicenseCounts, update_licenses, update_stats, State, start, summarize, Summary, compute_summary,
}

abbrev sum_of : LicenseCounts → ℕ
sum_of c = c.known + c.unknown + c.denied

module _ (float : Float64) where
  summarize-sum :
      (s : State float) (deps : List (DependencyReport float))
      → sum_of (summarize float s deps).licenses ≡ sum_of s.licenses + length deps
  unfolding summarize update_licenses
  summarize-sum s [] = omega arith
  summarize-sum s (dep ∷ deps) = ground (
    arith,
    summarize-sum
        (record {
          used = s.used + dep.used_exports_count;
          total = s.total + dep.total_exports_count;
          licenses = update_licenses s.licenses dep.license;
          stats = update_stats float s.stats dep.reachability_confidence;
          findings = add_findings float s.findings dep.vulnerabilities;
        })
        deps,
  )

  -- In a summary each dependency counts once as of a known, an unknown or a denied license.
  pub compute_summary-licenses :
      (deps : List (DependencyReport float)) (s : Summary float)
      → compute_summary float deps ≡ some s
      → s.licenses.known + s.licenses.unknown + s.licenses.denied ≡ s.dependency_count
  unfolding compute_summary
  compute_summary-licenses [] s h = cc
  compute_summary-licenses (dep ∷ deps) s h =
      ground (arith, summarize-sum (start float) (dep ∷ deps))

  lookup-count_up :
      (key asked : Str) (counts : Dict ℕ)
      → or_zero (lookup asked (count_up key counts))
        ≡ or_zero (lookup asked counts) + one_if (str_eq key asked)
  unfolding count_up
  lookup-count_up key asked counts = elim (Bool-cases (str_eq key asked)) [
    | inl same ↦
        let e = (str_eq_iff key asked).0 same in
        rw (lookup-insert key asked (or_zero (lookup key counts) + 1) counts, same, e) refl
    | inr other ↦
        rw (lookup-insert key asked (or_zero (lookup key counts) + 1) counts, other) (omega arith)
  ]

  abbrev is_reported : VulnerabilityFinding float → Bool
  is_reported f = f.reachable && not (finding_suppressed float f)

  abbrev severity_of : VulnerabilityFinding float → Str
  severity_of f = normalize_severity f.severity

  abbrev priority_of : VulnerabilityFinding float → Str
  priority_of f = normalize_priority_threshold f.priority

  abbrev source_of : VulnerabilityFinding float → Str
  source_of f = trim_space f.source

  -- How many findings have this text.
  abbrev occurrences :
      (VulnerabilityFinding float → Str) → Str → List (VulnerabilityFinding float) → ℕ
  occurrences text_of key fs = count_if (λ f. str_eq (text_of f) key) fs

  -- No text ranks higher, and this is one of the texts, or none was above rank 0.
  abbrev IsHighest :
      (Str → ℕ)
      → Str
      → (VulnerabilityFinding float → Str)
      → List (VulnerabilityFinding float)
      → Type 0
  IsHighest rank highest text_of fs =
      All (λ f. rank (text_of f) ≤ rank highest) fs
      × ((highest ≡ []) ⊎ (any (λ f. str_eq (text_of f) highest) fs ≡ true))

  -- What `add` keeps true of its builder.
  pub record IsTallied (b : Builder) (fs : List (VulnerabilityFinding float)) : Type 0 where
    pub counted : b.total_findings ≡ length fs
    pub severities :
        (key : Str) → or_zero (lookup key b.by_severity) ≡ occurrences severity_of key fs
    pub priorities :
        (key : Str) → or_zero (lookup key b.by_priority) ≡ occurrences priority_of key fs
    pub reachable : b.reachable_findings ≡ count_if is_reported fs
    pub highest : IsHighest severity_rank b.highest_severity severity_of fs
    pub highest_of_priorities : IsHighest priority_rank b.highest_priority priority_of fs
    pub named_sources :
        (key : Str)
        → has_key key b.sources ≡ (not (str_eq key []) && any (λ f. str_eq (source_of f) key) fs)

  occurrences-count_up :
      (text_of : VulnerabilityFinding float → Str) (counts : Dict ℕ)
      (fs : List (VulnerabilityFinding float)) (f : VulnerabilityFinding float)
      → ((key : Str) → or_zero (lookup key counts) ≡ occurrences text_of key fs)
      → (key : Str)
      → or_zero (lookup key (count_up (text_of f) counts)) ≡ occurrences text_of key (fs ++ f ∷ [])
  unfolding total
  occurrences-count_up text_of counts fs f h key = omega (
    arith,
    h key,
    lookup-count_up (text_of f) key counts,
    total-append (λ g. one_if (str_eq (text_of g) key)) fs (f ∷ []),
  )

  IsHighest-snoc :
      (rank : Str → ℕ) (highest : Str) (text_of : VulnerabilityFinding float → Str)
      (fs : List (VulnerabilityFinding float)) (f : VulnerabilityFinding float)
      → IsHighest rank highest text_of fs
      → IsHighest rank
          (if ltb (rank highest) (rank (text_of f)) then text_of f else highest)
          text_of
          (fs ++ f ∷ [])
  IsHighest-snoc rank highest text_of fs f (below, attained) =
      elim (Bool-cases (ltb (rank highest) (rank (text_of f)))) [
        | inl up ↦ rw up (
          All-snoc _ fs f (All-map (λ g h. ground arith) fs below) (ground arith),
          inr (
              ground (
                arith,
                any-append (λ g. str_eq (text_of g) (text_of f)) fs (f ∷ []),
                str_eq_refl (text_of f),
              )),
        )
        | inr stay ↦ rw stay (
          All-snoc _ fs f below (ground arith),
          ground (arith, any-append (λ g. str_eq (text_of g) highest) fs (f ∷ [])),
        )
      ]

  add_source :
      (key source : Str) (sources : Dict Bool) (fs : List (VulnerabilityFinding float))
      (f : VulnerabilityFinding float)
      → source_of f ≡ source
      → has_key key sources ≡ (not (str_eq key []) && any (λ g. str_eq (source_of g) key) fs)
      → has_key key (if str_eq source [] then sources else insert source true sources)
        ≡ (not (str_eq key []) && any (λ g. str_eq (source_of g) key) (fs ++ f ∷ []))
  add_source key source sources fs f e h = ground (
    arith,
    any-append (λ g. str_eq (source_of g) key) fs (f ∷ []),
    lookup-insert source key true sources,
    str_eq_iff source key,
    str_eq_iff source [],
    str_eq_iff key [],
  )

  add_finding-IsTallied :
      (b : Builder) (fs : List (VulnerabilityFinding float)) (f : VulnerabilityFinding float)
      → IsTallied b fs
      → IsTallied (add_finding float b f) (fs ++ f ∷ [])
  unfolding add_finding total
  add_finding-IsTallied b fs f t = record {
    counted = omega (arith, length-append fs (f ∷ []), t.counted);
    severities = occurrences-count_up severity_of b.by_severity fs f t.severities;
    priorities = occurrences-count_up priority_of b.by_priority fs f t.priorities;
    reachable = ground (arith, total-append (λ g. one_if (is_reported g)) fs (f ∷ []), t.reachable);
    highest = IsHighest-snoc severity_rank b.highest_severity severity_of fs f t.highest;
    highest_of_priorities =
        IsHighest-snoc priority_rank b.highest_priority priority_of fs f t.highest_of_priorities;
    named_sources = λ key. add_source key (source_of f) b.sources fs f refl (t.named_sources key);
  }

  add_findings_from-IsTallied :
      (b : Builder) (seen fs : List (VulnerabilityFinding float))
      → IsTallied b seen
      → IsTallied (add_findings float b fs) (seen ++ fs)
  unfolding add_findings
  add_findings_from-IsTallied b seen [] t = subst (IsTallied b) (sym (append-nil seen)) t
  add_findings_from-IsTallied b seen (f ∷ fs) t =
      subst (IsTallied _) (append_assoc seen (f ∷ []) fs) (
        add_findings_from-IsTallied (add_finding float b f) (seen ++ f ∷ []) fs
          (add_finding-IsTallied b seen f t))

  -- The vulnerability counts of a list of findings: the total is its length; under each key, the
  -- severities and the priorities count the findings of that normalized severity or priority; the
  -- reachable count is that of the findings that are reachable and not suppressed. No finding ranks
  -- above the highest severity or the highest priority, each of which is empty or that of some
  -- finding. The sources are the trimmed sources of the findings, but the empty one.
  pub add_findings-IsTallied :
      (fs : List (VulnerabilityFinding float)) → IsTallied (add_findings float new_builder fs) fs
  unfolding total lookup
  add_findings-IsTallied fs = add_findings_from-IsTallied new_builder [] fs (record {
    counted = refl;
    severities = λ key. refl;
    priorities = λ key. refl;
    reachable = refl;
    highest = (tt, inl refl);
    highest_of_priorities = (tt, inl refl);
    named_sources = λ key. ground arith;
  })
