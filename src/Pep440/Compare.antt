-- ===== src/Pep440/Compare.antt =====
-- internal/report/pep440/pep440.go: the comparisons of parsed versions and `CompareVersions`.
use lopper.Prelude.{
  ◌≡◌, refl, Bool, true, false, not, ◌&&◌, List, [], ◌∷◌, Option, none, some, Ordering, lt, eq, gt,
  length, all, if◌then◌else◌,
}
use lopper.Prelude.Int.{ℤ, pos, leb_ℤ, ltb_ℤ, eqb_ℤ}
use lopper.Prelude.Order.{flip, or_else}
use lopper.Text.{Str, str_eq, compare_str}
use lopper.Regex.{is_digit}
use lopper.Pep440.Version.{Version, normalized_number, parse_version}

-- `comparePEP440Ints`.
unfoldable pub compare_ints : ℤ → ℤ → Ordering
compare_ints left right = if ltb_ℤ left right then lt else if ltb_ℤ right left then gt else eq

abbrev compare_lengths {ℓ} : {A : Type ℓ} → List A → List A → Ordering
compare_lengths left right = compare_ints (pos (length left)) (pos (length right))

-- `comparePEP440Numbers`.
unfoldable pub compare_numbers : Str → Str → Ordering
compare_numbers left right =
    if not (eqb_ℤ (pos (length left)) (pos (length right)))
    then compare_lengths left right
    else compare_str left right

-- The loop over the common length: the first difference, or none.
unfoldable pub first_difference : (Str → Str → Ordering) → List Str → List Str → Ordering
first_difference cmp (x ∷ left) (y ∷ right) = or_else (cmp x y) (first_difference cmp left right)
first_difference cmp _ _ = eq

-- `comparePEP440PartSlices`.
unfoldable pub compare_part_slices : (Str → Str → Ordering) → List Str → List Str → Ordering
unfolding first_difference
compare_part_slices cmp left right =
    or_else (first_difference cmp left right) (compare_lengths left right)

-- `comparePEP440Release`.
unfoldable pub compare_release : List Str → List Str → Ordering
compare_release = compare_part_slices compare_numbers

-- `isPEP440NumericPart`.
unfoldable pub is_numeric_part : Str → Bool
is_numeric_part value = not (str_eq value []) && all is_digit value

-- `comparePEP440LocalPart`.
unfoldable pub compare_local_part : Str → Str → Ordering
compare_local_part left right =
    if is_numeric_part left && is_numeric_part right
    then compare_numbers (normalized_number left) (normalized_number right)
    else if is_numeric_part left
    then gt
    else if is_numeric_part right
    then lt
    else compare_str left right

-- `comparePEP440LocalParts`.
unfoldable pub compare_local_parts : List Str → List Str → Ordering
compare_local_parts [] right = compare_lengths {A = Str} [] right
compare_local_parts left [] = compare_lengths {A = Str} left []
compare_local_parts left right = compare_part_slices compare_local_part left right

-- `comparePEP440OptionalNumber`; `present_order` is 1 or -1.
unfoldable pub compare_optional_number : Bool → Str → Bool → Str → Ordering → Ordering
compare_optional_number true left true right present_order = compare_numbers left right
compare_optional_number true left false right present_order = present_order
compare_optional_number false left true right present_order = flip present_order
compare_optional_number false left false right present_order = eq

-- `comparePEP440PreRelease`.
unfoldable pub compare_pre_release : Version → Version → Ordering
compare_pre_release left right =
    if not (eqb_ℤ left.pre_kind right.pre_kind)
    then compare_ints left.pre_kind right.pre_kind
    else if leb_ℤ (pos 3) left.pre_kind
    then eq
    else compare_numbers left.pre_number right.pre_number

-- `comparePEP440PostRelease`.
unfoldable pub compare_post_release : Version → Version → Ordering
compare_post_release left right =
    compare_optional_number left.has_post left.post_number right.has_post right.post_number gt

-- `comparePEP440DevRelease`.
unfoldable pub compare_dev_release : Version → Version → Ordering
compare_dev_release left right =
    compare_optional_number left.has_dev left.dev_number right.has_dev right.dev_number lt

-- `comparePEP440Epoch`, `comparePEP440ReleaseVersion` and `comparePEP440LocalVersion`.
abbrev pub compare_epoch : Version → Version → Ordering
compare_epoch left right = compare_numbers left.epoch right.epoch

abbrev pub compare_release_version : Version → Version → Ordering
compare_release_version left right = compare_release left.release right.release

abbrev pub compare_local_version : Version → Version → Ordering
compare_local_version left right = compare_local_parts left.local_parts right.local_parts

-- The loop over a list of comparisons: the first that is not 0.
abbrev pub first_nonzero : List (Version → Version → Ordering) → Version → Version → Ordering
first_nonzero [] left right = eq
first_nonzero (cmp ∷ rest) left right = or_else (cmp left right) (first_nonzero rest left right)

-- `comparePEP440Versions`.
unfoldable pub compare_parsed : Version → Version → Ordering
compare_parsed = first_nonzero (
    compare_epoch ∷ compare_release_version ∷ compare_pre_release ∷ compare_post_release
    ∷ compare_dev_release ∷ compare_local_version ∷ [])

unfoldable pub compare_both : Option Version → Option Version → Option Ordering
compare_both none right = none
compare_both (some left) none = none
compare_both (some left) (some right) = some (compare_parsed left right)

-- `CompareVersions`: `none` for a text outside the grammar.
unfoldable pub compare_versions : Str → Str → Option Ordering
unfolding compare_both parse_version compare_parsed compare_numbers compare_ints compare_release
    compare_part_slices compare_pre_release compare_post_release compare_dev_release
    compare_optional_number compare_local_parts compare_local_part is_numeric_part str_eq
    compare_str
compare_versions left right = compare_both (parse_version left) (parse_version right)

-- The comparison goes by the parsed versions alone.
pub compare_versions-parsed :
    (left right : Str)
    → compare_versions left right ≡ compare_both (parse_version left) (parse_version right)
unfolding compare_versions
compare_versions-parsed left right = refl
