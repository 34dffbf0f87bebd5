-- ===== src/Osv/Ranges.antt =====
-- `advisoryVersionMatch` of internal/report/osv_versions.go: what an advisory with version metadata
-- says of an installed version, from its list of versions and its ranges.
use mathlib.Core.List.{Permᴰ}
use mathlib.Core.List.Permᴰ
use lopper.Prelude.{
  ◌≡◌, refl, sym, ◌∙◌, ap, ap₂, Bool, true, false, List, [], ◌∷◌, map, arith, any, if◌then◌else◌,
}
use lopper.Text.{Str, str_eq, trim_space}
use lopper.Semver.{Semver}
use lopper.Osv.Events.{VersionRange}
use lopper.Osv.Match.{
  VersionMatch, unaffected, affected, unevaluable, affected_if, range_match, ranges_match, Advisory,
  has_osv_version_metadata, advisory_version_match,
}

-- The stronger of two answers: affected before unevaluable before unaffected.
pub stronger : VersionMatch → VersionMatch → VersionMatch
stronger affected m = affected
stronger unevaluable affected = affected
stronger unevaluable _ = unevaluable
stronger unaffected m = m

pub strongest : List VersionMatch → VersionMatch
unfolding stronger
strongest [] = unaffected
strongest (m ∷ ms) = stronger m (strongest ms)

module _ (semver : Semver) where
  ranges_match-strongest :
      (saw : Bool) (ranges : List VersionRange) (installed : Str)
      → ranges_match semver saw ranges installed
        ≡ stronger
            (if saw then unevaluable else unaffected)
            (strongest (map (λ r. range_match semver r installed) ranges))
  unfolding ranges_match strongest
  ranges_match-strongest saw [] installed = ground arith
  ranges_match-strongest saw (range ∷ ranges) installed = ground (
    arith,
    ranges_match-strongest saw ranges installed,
    ranges_match-strongest true ranges installed,
  )

  -- For an advisory with version metadata and an installed version that is not blank, the answer is
  -- the strongest of those of its ranges and of its list of affected versions.
  pub advisory_version_match-strongest :
      (advisory : Advisory) (installed : Str)
      → has_osv_version_metadata advisory ≡ true
      → str_eq (trim_space installed) [] ≡ false
      → advisory_version_match semver advisory installed
        ≡ stronger
            (affected_if (
              any
                (λ version. str_eq (trim_space installed) (trim_space version))
                advisory.affected_versions))
            (strongest
              (map (λ r. range_match semver r (trim_space installed)) advisory.version_ranges))
  unfolding advisory_version_match stronger
  advisory_version_match-strongest advisory installed has given =
      ground (arith, ranges_match-strongest false advisory.version_ranges (trim_space installed))

stronger_comm : (a b c : VersionMatch) → stronger a (stronger b c) ≡ stronger b (stronger a c)
unfolding stronger
stronger_comm a b c = ground arith

strongest-perm : {ms ns : List VersionMatch} → Permᴰ ms ns → strongest ms ≡ strongest ns
unfolding strongest
strongest-perm Permᴰ.nil = refl
strongest-perm (Permᴰ.cons {a} {b} e p) = ap₂ stronger e (strongest-perm p)
strongest-perm (Permᴰ.swap {l} e f) = rw (e, f) (stronger_comm _ _ (strongest l))
strongest-perm (Permᴰ.trans p q) = strongest-perm p ∙ strongest-perm q

-- The answer of the loop over the ranges does not depend on their order.
pub ranges_match-perm :
    (semver : Semver) (ranges more : List VersionRange) (installed : Str)
    → Permᴰ ranges more
    → ranges_match semver false ranges installed ≡ ranges_match semver false more installed
ranges_match-perm semver ranges more installed p =
    ranges_match-strongest semver false ranges installed
    ∙ ap (stronger unaffected) (strongest-perm (Permᴰ.map (λ r. range_match semver r installed) p))
    ∙ sym (ranges_match-strongest semver false more installed)
