-- ===== src/Thresholds/DenyList.antt =====
-- `normalizeDenyList` of internal/thresholds/thresholds.go as a set of identifiers in order.
use lopper.Prelude.{
  All-snoc, ◌≡◌, refl, ◌∙◌, Bool, false, not, ◌&&◌, ◌||◌, List, [], ◌∷◌, ◌++◌, arith, any, if_cases,
}
use lopper.Prelude.Sorted.{Pairwise, any-sort_by}
use lopper.Text.Ascending.{has, Differ, Before, sort_strings-Before}
use lopper.Text.{Str, str_eq, str_eq_iff}
use lopper.Thresholds.Values.{normalize_spdx_id, deny_list_from, normalize_deny_list}

any-append :
    (test : Str → Bool) (xs ys : List Str) → any test (xs ++ ys) ≡ (any test xs || any test ys)
any-append test [] ys = refl
any-append test (x ∷ xs) ys = ground (arith, any-append test xs ys)

-- Some value is written with the identifier, which is not empty.
abbrev pub denies : List Str → Str → Bool
denies values s = not (str_eq s []) && any (λ value. str_eq (normalize_spdx_id value) s) values

has-deny_list_from :
    (s : Str) (out values : List Str)
    → has s (deny_list_from out values) ≡ (has s out || denies values s)
unfolding deny_list_from
has-deny_list_from s out [] = ground arith
has-deny_list_from s out (value ∷ values) = ground (
  arith,
  has-deny_list_from s out values,
  has-deny_list_from s (out ++ normalize_spdx_id value ∷ []) values,
  any-append (λ item. str_eq item s) out (normalize_spdx_id value ∷ []),
  str_eq_iff (normalize_spdx_id value) s,
  str_eq_iff (normalize_spdx_id value) [],
  str_eq_iff s [],
)

append-Differ :
    (out : List Str) (item : Str)
    → Pairwise Differ out
    → has item out ≡ false
    → Pairwise Differ (out ++ item ∷ [])
append-Differ [] item h k = (tt, tt)
append-Differ (x ∷ out) item h k =
    (All-snoc (Differ x) out item h.0 (ground arith), append-Differ out item h.1 (ground arith))

deny_list_from-Differ :
    (values out : List Str) → Pairwise Differ out → Pairwise Differ (deny_list_from out values)
unfolding deny_list_from
deny_list_from-Differ [] out h = h
deny_list_from-Differ (value ∷ values) out h = deny_list_from-Differ values _ (
    if_cases (Pairwise Differ) (str_eq (normalize_spdx_id value) []) out _ (λ empty. h)
      (λ item.
        if_cases (Pairwise Differ) (has (normalize_spdx_id value) out) out _ (λ seen. h)
          (λ new. append-Differ out (normalize_spdx_id value) h new)))

-- The normalized deny list is in strictly ascending order, and has exactly the identifiers, but the
-- empty one, that some value is written with.
pub normalize_deny_list_lem :
    (values : List Str)
    → Pairwise Before (normalize_deny_list values)
      × ((s : Str) → has s (normalize_deny_list values) ≡ denies values s)
unfolding normalize_deny_list
normalize_deny_list_lem values =
    let items = deny_list_from [] values in
    (
      sort_strings-Before items (deny_list_from-Differ values [] tt),
      λ s. any-sort_by _ (λ item. str_eq item s) items ∙ has-deny_list_from s [] values,
    )
