-- ===== src/Pep440/Chain.antt =====
-- What `CompareVersions` of internal/report/pep440/pep440.go promises on whole version texts.
use lopper.Prelude.{◌≡◌, Option, none, some, arith, lt, eq, refl}
use mathlib.Core.Option
use lopper.Prelude.Order.{flip, IsOrder, on_key-IsOrder, or_else-IsOrder}
use lopper.Text.{Str}
use lopper.Pep440.Version.{Version, parse_version}
use lopper.Pep440.Compare.{compare_parsed, compare_both, compare_versions, compare_versions-parsed}
use lopper.Pep440.Order.{
  compare_numbers-IsOrder, compare_release-IsOrder, compare_pre_release-IsOrder,
  compare_post_release-IsOrder, compare_dev_release-IsOrder, compare_local_parts-IsOrder,
  IsOrder-agree,
}

-- The comparison of parsed versions is reflexive, antisymmetric up to rank, and transitive, and
-- versions of equal rank compare alike with all others.
pub compare_parsed-IsOrder : IsOrder compare_parsed
unfolding compare_parsed
compare_parsed-IsOrder =
    or_else-IsOrder (on_key-IsOrder (λ (v : Version). v.epoch) compare_numbers-IsOrder) (
      or_else-IsOrder (on_key-IsOrder (λ (v : Version). v.release) compare_release-IsOrder) (
        or_else-IsOrder compare_pre_release-IsOrder (
          or_else-IsOrder compare_post_release-IsOrder (
            or_else-IsOrder compare_dev_release-IsOrder (
              IsOrder-agree
                (on_key-IsOrder (λ (v : Version). v.local_parts) compare_local_parts-IsOrder)
                (λ a b. ground arith))))))

compare_both-flipped :
    (a b : Option Version) → compare_both b a ≡ Option.map flip (compare_both a b)
unfolding compare_both Option.map
compare_both-flipped none none = refl
compare_both-flipped none (some w) = refl
compare_both-flipped (some v) none = refl
compare_both-flipped (some v) (some w) = ground (arith, compare_parsed-IsOrder.flipped v w)

-- Exchanging the two texts exchanges the answer, and the same pairs are comparable.
pub compare_versions-flipped :
    (left right : Str) → compare_versions right left ≡ Option.map flip (compare_versions left right)
compare_versions-flipped left right =
    rw compare_versions-parsed
      (rw compare_versions-parsed (compare_both-flipped (parse_version left) (parse_version right)))

compare_both-transitive :
    (a b c : Option Version)
    → compare_both a b ≡ some lt
    → compare_both b c ≡ some lt
    → compare_both a c ≡ some lt
unfolding compare_both
compare_both-transitive (some u) (some v) (some w) h k =
    ground (arith, compare_parsed-IsOrder.transitive u v w)
compare_both-transitive a b c h k = ground arith

-- If the first text goes before the second and the second before the third, then the first goes
-- before the third.
pub compare_versions-transitive :
    (a b c : Str)
    → compare_versions a b ≡ some lt
    → compare_versions b c ≡ some lt
    → compare_versions a c ≡ some lt
compare_versions-transitive a b c h k = rw compare_versions-parsed (
    compare_both-transitive (parse_version a) (parse_version b) (parse_version c)
      (rw compare_versions-parsed at h) (rw compare_versions-parsed at k))

compare_both-same_rank :
    (a b c : Option Version) → compare_both a b ≡ some eq → compare_both a c ≡ compare_both b c
unfolding compare_both
compare_both-same_rank (some u) (some v) (some w) h =
    ground (arith, compare_parsed-IsOrder.same_rank u v w)
compare_both-same_rank a b c h = ground arith

-- Two texts of equal rank give the same answer against every third text.
pub compare_versions-same_rank :
    (a b c : Str) → compare_versions a b ≡ some eq → compare_versions a c ≡ compare_versions b c
compare_versions-same_rank a b c h = simp compare_versions-parsed (
    compare_both-same_rank (parse_version a) (parse_version b) (parse_version c)
      (rw compare_versions-parsed at h))
