-- ===== src/Merge/Grouping.antt =====
-- internal/analysis/merge_report_families.go: the merged report against the reports on each
-- language and name of a dependency.
use lopper.Prelude.{
  ◌≡◌, refl, sym, ap, ap₂, All-map, ◌||◌, ◌∙◌, subst, true, List, [], ◌∷◌, ◌++◌, map, Option, none,
  some, arith, All, Bool-cases, Option-cases, inl, inr, if◌then◌else◌,
}
use lopper.Prelude.Sorted.{Pairwise, any-sort_by}
use lopper.Prelude.Sort.{All-sort_by}
use lopper.Text.{Str, str_eq, str_eq_iff}
use lopper.Text.Ascending.{has, Before, sort_strings, sort_strings-Before}
use lopper.Dict.{Dict, lookup, insert, keys, has_key, has_value, lookup-insert}
use lopper.Dict.Keyed.{IsKeyed, insert-IsKeyed, keys-Differ, key_of_found, has-keys, keys-found}
use lopper.Float.{Float64}
use lopper.Model.Dependency.{DependencyReport}
use lopper.Merge.Families.{merge_dependency}
use lopper.Merge.Reports.{
  Report, dependency_merge_key, join_dependency, merge_by_key, merge_all_by_key, at_keys,
  merge_reports,
}

module _ (float : Float64) where
  -- All dependencies of the reports, in order.
  pub all_dependencies : List (Report float) → List (DependencyReport float)
  all_dependencies [] = []
  all_dependencies (current ∷ reports) = current.dependencies ++ all_dependencies reports

  -- The merge of the reports with one key, in order.
  unfoldable pub combined :
      Str
      → Option (DependencyReport float)
      → List (DependencyReport float)
      → Option (DependencyReport float)
  combined key so_far [] = so_far
  combined key so_far (dep ∷ deps) =
      combined key
        (if str_eq (dependency_merge_key float dep) key
          then some (join_dependency float so_far dep)
          else so_far)
        deps

  same_entry :
      (own key : Str) (merged : Dict (DependencyReport float)) (dep : DependencyReport float)
      → (if str_eq own key
          then some (join_dependency float (lookup own merged) dep)
          else lookup key merged)
        ≡ (if str_eq own key
            then some (join_dependency float (lookup key merged) dep)
            else lookup key merged)
  same_entry own key merged dep = elim (Bool-cases (str_eq own key)) [
    | inl same ↦ let e = (str_eq_iff own key).0 same in rw e
    | inr other ↦ rw other
  ]

  lookup-merge_by_key :
      (key : Str) (merged : Dict (DependencyReport float)) (deps : List (DependencyReport float))
      → lookup key (merge_by_key float merged deps) ≡ combined key (lookup key merged) deps
  unfolding merge_by_key combined
  lookup-merge_by_key key merged [] = refl
  lookup-merge_by_key key merged (dep ∷ deps) =
      let own = dependency_merge_key float dep in
      let joined = join_dependency float (lookup own merged) dep in
      lookup-merge_by_key key (insert own joined merged) deps
      ∙ ap (λ o. combined key o deps)
          (lookup-insert own key joined merged ∙ same_entry own key merged dep)

  combined-append :
      (key : Str) (xs ys : List (DependencyReport float)) (so_far : Option (DependencyReport float))
      → combined key so_far (xs ++ ys) ≡ combined key (combined key so_far xs) ys
  unfolding combined
  combined-append key [] ys so_far = refl
  combined-append key (x ∷ xs) ys so_far = combined-append key xs ys _

  lookup-merge_all_by_key :
      (key : Str) (merged : Dict (DependencyReport float)) (reports : List (Report float))
      → lookup key (merge_all_by_key float merged reports)
        ≡ combined key (lookup key merged) (all_dependencies reports)
  unfolding merge_all_by_key all_dependencies combined
  lookup-merge_all_by_key key merged [] = refl
  lookup-merge_all_by_key key merged (current ∷ reports) =
      lookup-merge_all_by_key key (merge_by_key float merged current.dependencies) reports
      ∙ ap (λ o. combined key o (all_dependencies reports))
          (lookup-merge_by_key key merged current.dependencies)
      ∙ sym (combined-append key current.dependencies _ (lookup key merged))

  merge_dependency-key :
      (left right : DependencyReport float)
      → dependency_merge_key float (merge_dependency float left right)
        ≡ dependency_merge_key float left
  unfolding merge_dependency dependency_merge_key
  merge_dependency-key left right =
      elim (Bool-cases (left.usage_incomplete || right.usage_incomplete)) [
        | inl h ↦ rw h
        | inr h ↦ rw h
      ]

  joined-key :
      (merged : Dict (DependencyReport float)) (dep : DependencyReport float)
      → IsKeyed (dependency_merge_key float) merged
      → dependency_merge_key float
          (join_dependency float (lookup (dependency_merge_key float dep) merged) dep)
        ≡ dependency_merge_key float dep
  joined-key merged dep h = elim (Option-cases (lookup (dependency_merge_key float dep) merged)) [
    | inl new ↦ rw new
    | inr (existing, old) ↦ rw old (
        merge_dependency-key existing dep
        ∙ key_of_found (dependency_merge_key float) _ existing merged h old)
  ]

  merge_by_key-IsKeyed :
      (deps : List (DependencyReport float)) (merged : Dict (DependencyReport float))
      → IsKeyed (dependency_merge_key float) merged
      → IsKeyed (dependency_merge_key float) (merge_by_key float merged deps)
  unfolding merge_by_key
  merge_by_key-IsKeyed [] merged h = h
  merge_by_key-IsKeyed (dep ∷ deps) merged h =
      merge_by_key-IsKeyed deps _
        (insert-IsKeyed (dependency_merge_key float) _ _ merged (joined-key merged dep h) h)

  merge_all_by_key-IsKeyed :
      (reports : List (Report float)) (merged : Dict (DependencyReport float))
      → IsKeyed (dependency_merge_key float) merged
      → IsKeyed (dependency_merge_key float) (merge_all_by_key float merged reports)
  unfolding merge_all_by_key
  merge_all_by_key-IsKeyed [] merged h = h
  merge_all_by_key-IsKeyed (current ∷ reports) merged h =
      merge_all_by_key-IsKeyed reports _ (merge_by_key-IsKeyed current.dependencies merged h)

  at_keys-found :
      (merged : Dict (DependencyReport float)) (ks : List Str)
      → IsKeyed (dependency_merge_key float) merged
      → All
          (λ dep. lookup (dependency_merge_key float dep) merged ≡ some dep)
          (at_keys float merged ks)
  unfolding at_keys
  at_keys-found merged [] h = tt
  at_keys-found merged (k ∷ ks) h = elim (Option-cases (lookup k merged)) [
    | inl missing ↦ rw (missing, at_keys) (at_keys-found merged ks h)
    | inr (dep, found) ↦
        rw (found, at_keys)
          ((
            subst (λ j. lookup j merged ≡ some dep)
                (sym (key_of_found (dependency_merge_key float) k dep merged h found)) found,
            at_keys-found merged ks h,
          ))
  ]

  at_keys-keys :
      (merged : Dict (DependencyReport float)) (ks : List Str)
      → IsKeyed (dependency_merge_key float) merged
      → All (λ k. has_key k merged ≡ true) ks
      → map (dependency_merge_key float) (at_keys float merged ks) ≡ ks
  unfolding at_keys
  at_keys-keys merged [] h all = refl
  at_keys-keys merged (k ∷ ks) h all = elim (Option-cases (lookup k merged)) [
    | inl missing ↦ absurd (ground arith)
    | inr (dep, found) ↦
        rw (found, at_keys)
          (ap₂ (λ j js. j ∷ js) (key_of_found (dependency_merge_key float) k dep merged h found)
            (at_keys-keys merged ks h all.1))
  ]

  -- The merged report has its dependencies in strictly ascending order of language and name, each
  -- one the merge, in order, of all reports on that language and name, and misses none.
  pub merge_reports-grouped :
      (repo_path : Str) (reports : List (Report float))
      → let merged = (merge_reports float repo_path reports).dependencies in
        let deps = all_dependencies reports in
        Pairwise Before (map (dependency_merge_key float) merged)
        × All (λ dep. combined (dependency_merge_key float dep) none deps ≡ some dep) merged
        × ((key : Str)
            → has key (map (dependency_merge_key float) merged)
              ≡ has_value (combined key none deps))
  unfolding merge_reports lookup
  merge_reports-grouped repo_path reports =
      let merged = merge_all_by_key float [] reports in
      let keyed = merge_all_by_key-IsKeyed reports [] tt in
      let same_keys =
        at_keys-keys merged (sort_strings (keys merged)) keyed
          (All-sort_by (λ k. has_key k merged ≡ true) _ (keys merged) (keys-found merged)) in
      (
        subst (Pairwise Before) (sym same_keys) (
            sort_strings-Before (keys merged)
              (keys-Differ (dependency_merge_key float) merged keyed)),
        All-map
            (λ dep found.
              sym (lookup-merge_all_by_key (dependency_merge_key float dep) [] reports) ∙ found)
            _ (at_keys-found merged (sort_strings (keys merged)) keyed),
        λ key.
            ap (has key) same_keys
            ∙ any-sort_by _ (λ item. str_eq item key) (keys merged)
            ∙ has-keys key merged
            ∙ ap has_value (lookup-merge_all_by_key key [] reports),
      )
