-- ===== src/Baseline/Distance.antt =====
-- internal/report/baseline_diff.go: the distance of two versions.
use lopper.Prelude.{ℕ, ◌≡◌, refl, ap, List, [], ◌∷◌, Option, none, some, arith, if◌then◌else◌}
use lopper.Text.{Str, str_eq, str_eq_iff, str_eq_refl}
use lopper.Baseline.Versions.{
  part_difference, parts_distance, numeric_distance, numeric_version_parts, version_distance,
}

part_difference_comm : (l r : ℕ) → part_difference l r ≡ part_difference r l
part_difference_comm l r = ground arith

parts_distance_comm : (left right : List ℕ) → parts_distance left right ≡ parts_distance right left
unfolding parts_distance
parts_distance_comm [] [] = refl
parts_distance_comm [] (r ∷ right) = rw (part_difference_comm 0 r, parts_distance_comm [] right)
parts_distance_comm (l ∷ left) [] = rw (part_difference_comm l 0, parts_distance_comm left [])
parts_distance_comm (l ∷ left) (r ∷ right) =
    rw (part_difference_comm l r, parts_distance_comm left right)

text_distance_comm :
    (l r : Str) → ◌≡◌ {A = ℕ} (if str_eq l r then 0 else 1) (if str_eq r l then 0 else 1)
text_distance_comm l r = ground (arith, str_eq_iff l r, str_eq_iff r l)

numeric_distance_comm :
    (left right : Option (List ℕ)) (l r : Str)
    → numeric_distance left right l r ≡ numeric_distance right left r l
numeric_distance_comm (some left) (some right) l r =
    ap (λ (d : ℕ × ℕ). d.0) (parts_distance_comm left right)
numeric_distance_comm (some left) none l r = text_distance_comm l r
numeric_distance_comm none (some right) l r = text_distance_comm l r
numeric_distance_comm none none l r = text_distance_comm l r

parts_distance_self : (parts : List ℕ) → (parts_distance parts parts).0 ≡ 0
unfolding parts_distance
parts_distance_self [] = refl
parts_distance_self (n ∷ parts) =
    let same : part_difference n n ≡ 0 = ground arith in
    rw (same, parts_distance_self parts) (omega arith)

numeric_distance_self : (parts : Option (List ℕ)) (v : Str) → numeric_distance parts parts v v ≡ 0
numeric_distance_self none v = rw (str_eq_refl v)
numeric_distance_self (some parts) v = parts_distance_self parts

-- The distance of two versions, also where it overflows, does not depend on their order, and a version
-- that is not empty has the distance zero from itself.
pub version_distance_lem :
    (left right : Str)
    → (version_distance left right ≡ version_distance right left)
      × (version_distance left left ≡ (if str_eq left [] then none else some 0))
unfolding version_distance
version_distance_lem left right = (
  ground (
    arith,
    numeric_distance_comm (numeric_version_parts left) (numeric_version_parts right) left right,
  ),
  ground (arith, numeric_distance_self (numeric_version_parts left) left),
)
