-- ===== src/Baseline/Versions.antt =====
-- internal/report/baseline_diff.go: how far apart the versions of two dependencies are. A distance is
-- an int64 of Go, here its bits: sums and products wrap around.
use lopper.Prelude.{
  ℕ, ◌+◌, ◌-◌, ◌*◌, ◌%◌, Bool, true, false, not, ◌&&◌, ◌||◌, List, [], ◌∷◌, Option, none, some, leb,
  ltb, if◌then◌else◌,
}
use lopper.Text.{Str, str_eq, trim_space}
use lopper.Text.Split.{join}
use lopper.Float.{Float64}
use lopper.Model.Dependency.{DependencyReport, DependencyIdentity}
use lopper.Purl.{Url, canonical_package_ecosystem, canonical_package_name, purl_version}
use lopper.Baseline.Keys.{is_blank, versionless_key, residual_identity_key}

-- The greatest `int`, which `strconv.Atoi` reads.
abbrev max_int : ℕ
max_int = 9223372036854775807

abbrev pub word : ℕ
word = 18446744073709551616

-- `<` of two int64 values by their bits.
abbrev pub is_less : ℕ → ℕ → Bool
is_less a b = ltb ((a + 9223372036854775808) % word) ((b + 9223372036854775808) % word)

abbrev is_digit : ℕ → Bool
is_digit c = leb b'0' c && leb c b'9'

-- A run of digits, by its value, with one more.
abbrev push_digit : Option ℕ → ℕ → ℕ
push_digit none c = c - b'0'
push_digit (some n) c = 10 * n + (c - b'0')

-- `flush`, in front of the parts that follow.
abbrev flush : Option ℕ → Option (List ℕ) → Option (List ℕ)
flush run none = none
flush none (some parts) = some parts
flush (some n) (some parts) = if leb n max_int then some (n ∷ parts) else none

-- The loop of `numericDependencyVersionParts`.
unfoldable pub numeric_from : Option ℕ → Str → Option (List ℕ)
numeric_from run [] = flush run (some [])
numeric_from run (c ∷ s) =
    let longer = numeric_from (some (push_digit run c)) s in
    let later = flush run (numeric_from none s) in if is_digit c then longer else later

abbrev unless_empty : Option (List ℕ) → Option (List ℕ)
unless_empty none = none
unless_empty (some []) = none
unless_empty (some (n ∷ parts)) = some (n ∷ parts)

-- `numericDependencyVersionParts`.
unfoldable pub numeric_version_parts : Str → Option (List ℕ)
numeric_version_parts version = unless_empty (numeric_from none version)

-- The absolute difference of two parts.
abbrev pub part_difference : ℕ → ℕ → ℕ
part_difference l r = if ltb l r then r - l else l - r

abbrev pub step : ℕ → ℕ × ℕ → ℕ × ℕ
step difference (distance, weight) = ((distance + difference * weight) % word, weight * 100 % word)

-- The loop over the parts, from the last: the distance and the next weight. Missing parts are zero.
unfoldable pub parts_distance : List ℕ → List ℕ → ℕ × ℕ
parts_distance [] [] = (0, 1)
parts_distance [] (r ∷ right) = step (part_difference 0 r) (parts_distance [] right)
parts_distance (l ∷ left) [] = step (part_difference l 0) (parts_distance left [])
parts_distance (l ∷ left) (r ∷ right) = step (part_difference l r) (parts_distance left right)

abbrev pub numeric_distance : Option (List ℕ) → Option (List ℕ) → Str → Str → ℕ
numeric_distance (some left) (some right) l r = (parts_distance left right).0
numeric_distance (some left) none l r = if str_eq l r then 0 else 1
numeric_distance none right l r = if str_eq l r then 0 else 1

-- What `dependencyVersionDistance` makes of two versions.
unfoldable pub version_distance : Str → Str → Option ℕ
version_distance left right =
    if str_eq left [] || str_eq right []
    then none
    else some
        (numeric_distance (numeric_version_parts left) (numeric_version_parts right) left right)

module _ (float : Float64) (url : Url) where
  -- `dependencyIdentityVersionForPairing`.
  unfoldable pub version_for_pairing : Option DependencyIdentity → Str
  version_for_pairing none = []
  version_for_pairing (some identity) =
      if is_blank identity.version
      then purl_version url identity.purl
      else trim_space identity.version

  -- `dependencyIdentityVersionPrefix`.
  unfoldable pub version_prefix : DependencyReport float → Str
  version_prefix dep = elim dep.identity [
    | none ↦ []
    | some identity ↦
        if not (is_blank identity.purl)
        then join 0 (versionless_key float url dep ∷ trim_space identity.purl_status ∷ [])
        else join 0 (
            versionless_key float url dep
            ∷ canonical_package_ecosystem identity.ecosystem
            ∷ trim_space identity.namespace
            ∷ canonical_package_name identity.ecosystem identity.name
            ∷ trim_space identity.purl_status
            ∷ [])
  ]

  -- `dependencyVersionDistance`.
  unfoldable pub dependency_version_distance :
      DependencyReport float → DependencyReport float → Option ℕ
  dependency_version_distance left right =
      version_distance (version_for_pairing left.identity) (version_for_pairing right.identity)

  -- A distance that is there and, where the best so far is, below it.
  abbrev nearer : Option ℕ → Option ℕ → Option ℕ
  nearer none best = best
  nearer (some distance) none = some distance
  nearer (some distance) (some best) = if is_less distance best then some distance else some best

  -- `nearerDependencyVersionDistance`.
  unfoldable pub nearer_distance :
      DependencyReport float → DependencyReport float → Option ℕ → Option ℕ
  nearer_distance source candidate best =
      if not (str_eq (version_prefix source) (version_prefix candidate))
      then best
      else nearer (dependency_version_distance source candidate) best

  -- `dependencyNearestVersionDistanceAtIndexes`, on the dependencies at the indexes, and
  -- `dependencyNearestVersionDistance`.
  unfoldable pub nearest_from :
      DependencyReport float → Option ℕ → List (DependencyReport float) → Option ℕ
  nearest_from source best [] = best
  nearest_from source best (candidate ∷ candidates) =
      nearest_from source (nearer_distance source candidate best) candidates

  abbrev is_farther : ℕ → Option ℕ → Bool
  is_farther distance none = false
  is_farther distance (some best) = is_less best distance

  -- `dependencyStableIdentityMutualNearestForDistances`.
  unfoldable pub mutual_nearest_for :
      DependencyReport float → DependencyReport float → Option ℕ → Option ℕ → Bool
  mutual_nearest_for current baseline current_best baseline_best =
      let prefix = version_prefix current in
      if str_eq prefix [] || not (str_eq prefix (version_prefix baseline))
      then false
      else elim (dependency_version_distance current baseline) [
        | none ↦ true
        | some distance ↦
            not (is_farther distance current_best) && not (is_farther distance baseline_best)
      ]

  -- `dependencyStableIdentityMutualNearestAtIndexes`, on the dependencies at the indexes.
  unfoldable pub mutual_nearest :
      DependencyReport float
      → DependencyReport float
      → List (DependencyReport float)
      → List (DependencyReport float)
      → Bool
  mutual_nearest current baseline current_group baseline_group =
      mutual_nearest_for current baseline (nearest_from current none baseline_group)
        (nearest_from baseline none current_group)

  abbrev has_identity : Option DependencyIdentity → Bool
  has_identity none = false
  has_identity (some identity) = true

  -- `dependencyStableIdentityCompatible`.
  unfoldable pub is_compatible : DependencyReport float → DependencyReport float → Bool
  is_compatible current baseline =
      if not (has_identity current.identity && has_identity baseline.identity)
      then false
      else if str_eq (residual_identity_key float url current)
          (residual_identity_key float url baseline)
      then true
      else let prefix = version_prefix current in
        not (str_eq prefix []) && str_eq prefix (version_prefix baseline)
