-- ===== src/Semver.antt =====
-- internal/report/identity_normalization.go: `CompareSemanticVersions`, over the module
-- golang.org/x/mod/semver, which is not in the repository and enters as an interface.
use lopper.Prelude.{
  ◌≡◌, refl, Bool, [], ◌∷◌, Option, none, some, arith, Ordering, eq, ◌==◌, ◌||◌, if◌then◌else◌,
}
use mathlib.Core.Option
use lopper.Prelude.Order.{IsOrder, flip}
use lopper.Text.{Str, trim_space}

-- `semver.IsValid` and `semver.Compare`, which ranks all texts: invalid ones below valid ones and
-- alike among themselves.
pub record Semver : Type 0 where
  pub is_valid : Str → Bool
  pub compare_valid : Str → Str → Ordering
  pub order : IsOrder compare_valid

-- `-1`, `0` or `1` where the caller drops the second result, which is false beside `0`.
abbrev pub or_zero : Option Ordering → Ordering
or_zero none = eq
or_zero (some o) = o

-- The leading `v` of `normalizeSemanticVersion`.
pub with_v : Str → Str
with_v [] = b'v' ∷ []
with_v (c ∷ s) = if c == b'v' || c == b'V' then b'v' ∷ s else b'v' ∷ c ∷ s

module _ (semver : Semver) where
  accept : Str → Option Str
  accept normalized = if semver.is_valid normalized then some normalized else none

  -- `normalizeSemanticVersion`.
  normalize_trimmed : Str → Option Str
  normalize_trimmed [] = none
  normalize_trimmed (c ∷ s) = accept (with_v (c ∷ s))

  pub normalize_semantic_version : Str → Option Str
  unfolding normalize_trimmed accept with_v trim_space
  normalize_semantic_version value = normalize_trimmed (trim_space value)

  pub compare_normalized : Option Str → Option Str → Option Ordering
  compare_normalized (some left) (some right) = some (semver.compare_valid left right)
  compare_normalized _ _ = none

  -- `CompareSemanticVersions`.
  unfoldable pub compare_semantic_versions : Str → Str → Option Ordering
  unfolding compare_normalized normalize_semantic_version
  compare_semantic_versions left right =
      compare_normalized (normalize_semantic_version left) (normalize_semantic_version right)

  compare_normalized-flipped :
      (left right : Option Str)
      → compare_normalized right left ≡ Option.map flip (compare_normalized left right)
  unfolding compare_normalized
  compare_normalized-flipped (some left) (some right) =
      ground (arith, semver.order.flipped left right)
  compare_normalized-flipped none none = refl
  compare_normalized-flipped none (some right) = refl
  compare_normalized-flipped (some left) none = refl

  pub compare_semantic_versions_lem :
      (left right : Str)
      → compare_semantic_versions left right
        ≡ compare_normalized (normalize_semantic_version left) (normalize_semantic_version right)
  unfolding compare_semantic_versions
  compare_semantic_versions_lem left right = refl

  pub compare_semantic_versions-flipped :
      (left right : Str)
      → compare_semantic_versions right left
        ≡ Option.map flip (compare_semantic_versions left right)
  compare_semantic_versions-flipped left right = simp compare_semantic_versions_lem (
      compare_normalized-flipped (normalize_semantic_version left)
        (normalize_semantic_version right))
