-- ===== src/Pep440/Order.antt =====
-- The comparisons of internal/report/pep440/pep440.go order the versions in a line.
use lopper.Prelude.{
  ◌≢◌, ◌≡◌, refl, fun_ext, subst, sym, Bool, true, false, List, [], ◌∷◌, arith, Ordering, lt, eq,
  gt, length, if◌then◌else◌,
}
use lopper.Prelude.Int.{pos, leb_ℤ}
use lopper.Prelude.Order.{
  or_else, IsOrder, on_key-IsOrder, or_else-IsOrder, compare_list, compare_list-IsOrder,
}
use lopper.Text.{Str, compare_str, compare_str-IsOrder}
use lopper.Pep440.Version.{Version, normalized_number}
use lopper.Pep440.Compare.{
  compare_ints, compare_numbers, compare_part_slices, compare_release, compare_local_part,
  compare_local_parts, is_numeric_part, compare_optional_number, compare_pre_release,
  compare_post_release, compare_dev_release,
}

-- A comparison that agrees with an order at all values is an order.
pub IsOrder-agree {ℓ} :
    {A : Type ℓ} {cmp known : A → A → Ordering}
    → IsOrder known
    → ((a b : A) → known a b ≡ cmp a b)
    → IsOrder cmp
IsOrder-agree o same = subst IsOrder (fun_ext λ a. fun_ext λ b. same a b) o

pub compare_ints-IsOrder : IsOrder compare_ints
unfolding compare_ints
compare_ints-IsOrder = record {
  reflexive = λ a. ground arith;
  flipped = λ a b. ground arith;
  same_rank = λ a b c h. ground arith;
  transitive = λ a b c h k. ground arith;
}

length-IsOrder :
    {A : Type 0} → IsOrder (λ (a b : List A). compare_ints (pos (length a)) (pos (length b)))
length-IsOrder = on_key-IsOrder (λ a. pos (length a)) compare_ints-IsOrder

compare_numbers-agree :
    (a b : Str)
    → or_else (compare_ints (pos (length a)) (pos (length b))) (compare_str a b)
      ≡ compare_numbers a b
unfolding compare_numbers compare_ints
compare_numbers-agree a b = ground arith

pub compare_numbers-IsOrder : IsOrder compare_numbers
compare_numbers-IsOrder =
    IsOrder-agree (or_else-IsOrder length-IsOrder compare_str-IsOrder) compare_numbers-agree

pub compare_part_slices-list :
    (cmp : Str → Str → Ordering) (a b : List Str)
    → compare_part_slices cmp a b ≡ compare_list cmp a b
unfolding compare_part_slices compare_list compare_ints
compare_part_slices-list cmp [] [] = refl
compare_part_slices-list cmp [] (y ∷ b) = ground arith
compare_part_slices-list cmp (x ∷ a) [] = ground arith
compare_part_slices-list cmp (x ∷ a) (y ∷ b) = ground (arith, compare_part_slices-list cmp a b)

compare_bool : Bool → Bool → Ordering
compare_bool false true = lt
compare_bool true false = gt
compare_bool _ _ = eq

compare_bool-IsOrder : IsOrder compare_bool
unfolding compare_bool
compare_bool-IsOrder = record {
  reflexive = λ a. ground arith;
  flipped = λ a b. ground arith;
  same_rank = λ a b c h. ground arith;
  transitive = λ a b c h k. ground arith;
}

pub compare_part_slices-IsOrder :
    {cmp : Str → Str → Ordering} → IsOrder cmp → IsOrder (compare_part_slices cmp)
compare_part_slices-IsOrder {cmp} o =
    IsOrder-agree (compare_list-IsOrder o) (λ a b. sym (compare_part_slices-list cmp a b))

pub compare_release-IsOrder : IsOrder compare_release
unfolding compare_release
compare_release-IsOrder = compare_part_slices-IsOrder compare_numbers-IsOrder

-- What a local part is compared by: its kind, then its number or its text.
number_key : Str → Str
number_key part = if is_numeric_part part then normalized_number part else []

text_key : Str → Str
text_key part = if is_numeric_part part then [] else part

compare_local_part-agree :
    (a b : Str)
    → or_else (compare_bool (is_numeric_part a) (is_numeric_part b)) (
        or_else
          (compare_numbers (number_key a) (number_key b))
          (compare_str (text_key a) (text_key b)))
      ≡ compare_local_part a b
unfolding compare_local_part compare_bool number_key text_key
compare_local_part-agree a b =
    ground (arith, compare_numbers-IsOrder.reflexive [], compare_str-IsOrder.reflexive [])

pub compare_local_part-IsOrder : IsOrder compare_local_part
compare_local_part-IsOrder =
    IsOrder-agree
      (or_else-IsOrder (on_key-IsOrder is_numeric_part compare_bool-IsOrder) (
        or_else-IsOrder (on_key-IsOrder number_key compare_numbers-IsOrder)
          (on_key-IsOrder text_key compare_str-IsOrder)))
      compare_local_part-agree

compare_local_parts-agree :
    (a b : List Str) → compare_part_slices compare_local_part a b ≡ compare_local_parts a b
unfolding compare_local_parts compare_part_slices
compare_local_parts-agree [] b = refl
compare_local_parts-agree (x ∷ a) [] = refl
compare_local_parts-agree (x ∷ a) (y ∷ b) = refl

pub compare_local_parts-IsOrder : IsOrder compare_local_parts
compare_local_parts-IsOrder =
    IsOrder-agree (compare_part_slices-IsOrder compare_local_part-IsOrder) compare_local_parts-agree

-- An optional number under either presence order.
abbrev Tag : Type 0
Tag = Bool × Str

compare_tag : Ordering → Tag → Tag → Ordering
compare_tag order a b = compare_optional_number a.0 a.1 b.0 b.1 order

compare_tag-IsOrder : (order : Ordering) → order ≢ eq → IsOrder (compare_tag order)
unfolding compare_tag compare_optional_number
compare_tag-IsOrder order h = record {
  reflexive = λ a. ground (arith, compare_numbers-IsOrder.reflexive a.1);
  flipped = λ a b. ground (arith, compare_numbers-IsOrder.flipped a.1 b.1);
  same_rank = λ a b c k. ground (arith, compare_numbers-IsOrder.same_rank a.1 b.1 c.1);
  transitive = λ a b c k l. ground (arith, compare_numbers-IsOrder.transitive a.1 b.1 c.1);
}

pub compare_post_release-IsOrder : IsOrder compare_post_release
unfolding compare_post_release compare_tag
compare_post_release-IsOrder =
    on_key-IsOrder (λ (v : Version). (v.has_post, v.post_number)) (compare_tag-IsOrder gt (cc))

pub compare_dev_release-IsOrder : IsOrder compare_dev_release
unfolding compare_dev_release compare_tag
compare_dev_release-IsOrder =
    on_key-IsOrder (λ (v : Version). (v.has_dev, v.dev_number)) (compare_tag-IsOrder lt (cc))

-- A final release has no pre-release number to compare.
pre_key : Version → Str
pre_key v = if leb_ℤ (pos 3) v.pre_kind then [] else v.pre_number

compare_pre_release-agree :
    (a b : Version)
    → or_else (compare_ints a.pre_kind b.pre_kind) (compare_numbers (pre_key a) (pre_key b))
      ≡ compare_pre_release a b
unfolding compare_pre_release pre_key compare_ints
compare_pre_release-agree a b = ground (arith, compare_numbers-IsOrder.reflexive [])

pub compare_pre_release-IsOrder : IsOrder compare_pre_release
compare_pre_release-IsOrder =
    IsOrder-agree
      (or_else-IsOrder (on_key-IsOrder (λ v. v.pre_kind) compare_ints-IsOrder)
        (on_key-IsOrder pre_key compare_numbers-IsOrder))
      compare_pre_release-agree
