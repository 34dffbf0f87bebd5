-- ===== src/Merge/Faithful.antt =====
-- internal/analysis/merge_report_families.go: what the merged report says of the reports that
-- `mergeReports` merges into one dependency.
use lopper.Prelude.{
  ◌≡◌, sym, subst, Bool, false, not, ◌&&◌, List, [], ◌∷◌, ◌++◌, Option, none, some, arith, All,
  All-map, All-snoc, any, Bool-cases, inl, inr, if◌then◌else◌, append-nil, append_assoc, refl,
}
use lopper.Prelude.Counts.{any-append}
use lopper.Text.{Str, str_eq}
use lopper.Float.{Float64}
use lopper.Model.Dependency.{DependencyReport}
use lopper.Merge.Evidence.{
  mentions, is_misleading, merge_dependency-usage_incomplete, merge_dependency-is_misleading,
  merge_dependency-mentions,
}
use lopper.Merge.Reports.{Report, dependency_merge_key, join_dependency, merge_reports}
use lopper.Merge.Grouping.{all_dependencies, combined, merge_reports-grouped}

module _ (float : Float64) where
  -- A report of the group of a key.
  abbrev pub is_of : Str → DependencyReport float → Bool
  is_of key dep = str_eq (dependency_merge_key float dep) key

  -- A report of the group mentions an import that the merged report does not.
  abbrev pub loses : Str → DependencyReport float → Str → DependencyReport float → Bool
  loses key merged item dep =
      is_of key dep && mentions float item dep && not (mentions float item merged)

  -- What a merged report says of the reports of its group: its usage is incomplete exactly if that of
  -- one of them is; it is misleading only if one of them is; it mentions each import that they do.
  pub record IsFaithful (key : Str) (deps : List (DependencyReport float))
      (merged : DependencyReport float) : Type 0 where
    pub incomplete :
        merged.usage_incomplete ≡ any (λ dep. is_of key dep && dep.usage_incomplete) deps
    pub honest :
        (is_misleading float merged
          && not (any (λ dep. is_of key dep && is_misleading float dep) deps))
        ≡ false
    pub lossless : (item : Str) → All (λ dep. loses key merged item dep ≡ false) deps

  -- The same of the merge so far: there is none where no report of the group was seen.
  abbrev IsFaithfulSoFar :
      Str → List (DependencyReport float) → Option (DependencyReport float) → Type 0
  IsFaithfulSoFar key seen none = All (λ dep. is_of key dep ≡ false) seen
  IsFaithfulSoFar key seen (some merged) = IsFaithful key seen merged

  none_of_group :
      (key : Str) (test : DependencyReport float → Bool) (seen : List (DependencyReport float))
      → All (λ dep. is_of key dep ≡ false) seen
      → any (λ dep. is_of key dep && test dep) seen ≡ false
  none_of_group key test [] h = refl
  none_of_group key test (dep ∷ seen) h = ground (arith, none_of_group key test seen h.1)

  abbrev joined :
      Str
      → Option (DependencyReport float)
      → DependencyReport float
      → Option (DependencyReport float)
  joined key so_far dep = if is_of key dep then some (join_dependency float so_far dep) else so_far

  joined-IsFaithful :
      (key : Str) (seen : List (DependencyReport float)) (so_far : Option (DependencyReport float))
      (dep : DependencyReport float)
      → IsFaithfulSoFar key seen so_far
      → IsFaithfulSoFar key (seen ++ dep ∷ []) (joined key so_far dep)
  joined-IsFaithful key seen none dep h = elim (Bool-cases (is_of key dep)) [
    | inl same ↦ rw same (record {
      incomplete = ground (
        arith,
        any-append (λ d. is_of key d && d.usage_incomplete) seen (dep ∷ []),
        none_of_group key (λ d. d.usage_incomplete) seen h,
      );
      honest = ground (
        arith,
        any-append (λ d. is_of key d && is_misleading float d) seen (dep ∷ []),
        none_of_group key (is_misleading float) seen h,
      );
      lossless = λ item. All-snoc _ seen dep (All-map (λ d k. ground arith) seen h) (ground arith);
    })
    | inr other ↦ rw other (All-snoc _ seen dep h other)
  ]
  joined-IsFaithful key seen (some merged) dep h = elim (Bool-cases (is_of key dep)) [
    | inl same ↦ rw same (record {
      incomplete = ground (
        arith,
        h.incomplete,
        merge_dependency-usage_incomplete float merged dep,
        any-append (λ d. is_of key d && d.usage_incomplete) seen (dep ∷ []),
      );
      honest = ground (arith, merge_dependency-is_misleading float merged dep);
      lossless = λ item.
          All-snoc _ seen dep
            (All-map (λ d k. ground (arith, merge_dependency-mentions float item merged dep)) seen
              (h.lossless item))
            (ground (arith, merge_dependency-mentions float item merged dep));
    })
    | inr other ↦ rw other (record {
      incomplete = ground (
        arith,
        h.incomplete,
        any-append (λ d. is_of key d && d.usage_incomplete) seen (dep ∷ []),
      );
      honest =
          ground (
            arith,
            h.honest,
            any-append (λ d. is_of key d && is_misleading float d) seen (dep ∷ []),
          );
      lossless = λ item. All-snoc _ seen dep (h.lossless item) (ground arith);
    })
  ]

  combined-IsFaithful :
      (key : Str) (seen : List (DependencyReport float)) (so_far : Option (DependencyReport float))
      (deps : List (DependencyReport float))
      → IsFaithfulSoFar key seen so_far
      → IsFaithfulSoFar key (seen ++ deps) (combined float key so_far deps)
  unfolding combined
  combined-IsFaithful key seen so_far [] h =
      subst (λ l. IsFaithfulSoFar key l so_far) (sym (append-nil seen)) h
  combined-IsFaithful key seen so_far (dep ∷ deps) h =
      subst (λ l. IsFaithfulSoFar key l (combined float key (joined key so_far dep) deps))
        (append_assoc seen (dep ∷ []) deps)
        (combined-IsFaithful key (seen ++ dep ∷ []) (joined key so_far dep) deps
          (joined-IsFaithful key seen so_far dep h))

  -- In a merged report each dependency has incomplete usage exactly if one of the reports on its
  -- language and name has; it advises a removal in spite of incomplete usage only if one of these
  -- does; and each import that one of these calls used, unused or, under incomplete usage, suppressed
  -- is called one of these by the merged dependency.
  pub merge_reports-IsFaithful :
      (repo_path : Str) (reports : List (Report float))
      → All
          (λ merged.
            IsFaithful (dependency_merge_key float merged) (all_dependencies float reports) merged)
          (merge_reports float repo_path reports).dependencies
  merge_reports-IsFaithful repo_path reports =
      All-map
        (λ merged found.
          subst
            (IsFaithfulSoFar (dependency_merge_key float merged) (all_dependencies float reports))
            found
            (combined-IsFaithful (dependency_merge_key float merged) [] none
              (all_dependencies float reports) tt))
        _ (merge_reports-grouped float repo_path reports).1
