-- ===== src/Pep440/Phases.antt =====
-- Releases and phases of one release in internal/report/pep440/pep440.go.
use mathlib.Core.List.{reverse, reverse-append, reverse-reverse}
use lopper.Prelude.{
  ℕ, ◌<◌, ◌≡◌, ◌≢◌, refl, sym, ap, ◌∙◌, Bool, true, false, not, ◌||◌, List, [], ◌∷◌, ◌++◌, some,
  any, arith, lt, eq, map, ◌⊎◌, inl, inr, Bool-cases, if◌then◌else◌,
}
use lopper.Prelude.Int.{ℤ, pos, negsuc}
use lopper.Text.{Str, codes, str_eq, str_eq_iff, trim_space, to_lower}
use lopper.Regex.{Captures, find_submatch, submatch}
use lopper.Pep440.Version.{
  Version, split, cons_first, drop_last_zeros, normalized_release, normalized_number, version_re,
  pre_kind_of, version_of, parse_version,
}
use lopper.Pep440.Compare.{
  compare_ints, compare_epoch, compare_release_version, compare_pre_release, compare_post_release,
  compare_optional_number, compare_parsed, compare_both, compare_versions, compare_versions-parsed,
}

cons_first-append :
    (c : ℕ) (parts more : List Str)
    → parts ≢ []
    → cons_first c (parts ++ more) ≡ cons_first c parts ++ more
cons_first-append c [] more h = absurd (h refl)
cons_first-append c (p ∷ parts) more h = refl

split-ne-nil : (sep : ℕ) (s : Str) → split sep s ≢ []
unfolding split
split-ne-nil sep [] h = cc
split-ne-nil sep (c ∷ s) h = ground arith

-- A separator at the end of one text and in front of another splits there.
split-append : (sep : ℕ) (s t : Str) → split sep (s ++ sep ∷ t) ≡ split sep s ++ split sep t
unfolding split
split-append sep [] t = ground arith
split-append sep (c ∷ s) t = ground (
  arith,
  split-append sep s t,
  cons_first-append c (split sep s) (split sep t),
  split-ne-nil sep s,
)

drop_zero :
    (parts : List Str) → parts ≢ [] → drop_last_zeros (codes "0" ∷ parts) ≡ drop_last_zeros parts
unfolding drop_last_zeros normalized_number str_eq
drop_zero [] h = absurd (h refl)
drop_zero (p ∷ parts) h = refl

reverse-ne-nil : (parts : List Str) → parts ≢ [] → reverse parts ≢ []
reverse-ne-nil parts h e = h (sym (reverse-reverse parts) ∙ ap reverse e)

-- `1.2` and `1.2.0` have the same release, for whatever text stands before the last zero.
pub normalized_release-zero :
    (s : Str) → normalized_release (s ++ codes ".0") ≡ normalized_release s
unfolding normalized_release
normalized_release-zero s =
    ap (λ parts. map normalized_number (reverse parts))
      (ap drop_last_zeros (
          ap reverse (split-append b'.' s (codes "0"))
          ∙ reverse-append (split b'.' s) (codes "0" ∷ []))
        ∙ drop_zero (reverse (split b'.' s)) (reverse-ne-nil (split b'.' s) (split-ne-nil b'.' s)))

abbrev alpha_tags : List Str
alpha_tags = codes "a" ∷ codes "alpha" ∷ []

abbrev beta_tags : List Str
beta_tags = codes "b" ∷ codes "beta" ∷ []

abbrev candidate_tags : List Str
candidate_tags = codes "c" ∷ codes "rc" ∷ codes "pre" ∷ codes "preview" ∷ []

-- The phases of a release, in the order of PEP 440, by the lowered tag of a pre-release and the
-- presence of a post-release and of a development release.
abbrev pub phase_of : Str → Bool → Bool → ℕ
phase_of tag has_post has_dev =
    let tagged = λ (tags : List Str). any (λ t. str_eq tag t) tags in
    if tagged alpha_tags
    then 1
    else if tagged beta_tags
    then 2
    else if tagged candidate_tags
    then 3
    else if has_post
    then 5
    else if has_dev
    then 0
    else 4

-- The phase of what `pep440VersionRe` finds: the tag is group 3, a post-release is group 5 or 6, a
-- development release is group 8.
abbrev pub phase : Captures → ℕ
phase m =
    phase_of (to_lower (submatch 3 m))
      (not (str_eq (submatch 5 m) []) || not (str_eq (submatch 6 m) []))
      (not (str_eq (submatch 8 m) []))

-- What the code keeps of a phase: a kind, and whether there is a post-release.
abbrev IsKindOf : ℕ → Bool → ℤ → Type 0
IsKindOf rank has_post kind =
    (rank ≡ 0) × (kind ≡ negsuc 0)
    ⊎ ((rank ≡ 1) × (kind ≡ pos 0)
        ⊎ ((rank ≡ 2) × (kind ≡ pos 1)
            ⊎ ((rank ≡ 3) × (kind ≡ pos 2)
                ⊎ ((rank ≡ 4) × (kind ≡ pos 3) × (has_post ≡ false)
                    ⊎ (rank ≡ 5) × (kind ≡ pos 3) × (has_post ≡ true)))))

pre_kind_of-IsKindOf :
    (tag : Str) (has_post has_dev : Bool)
    → IsKindOf (phase_of tag has_post has_dev) has_post (pre_kind_of tag has_dev has_post)
unfolding pre_kind_of
pre_kind_of-IsKindOf tag has_post has_dev = elim (Bool-cases (str_eq tag (codes "alpha"))) [
  | inl alpha ↦ let e = (str_eq_iff tag (codes "alpha")).0 alpha in rw e (inr (inl (refl, refl)))
  | inr other ↦ elim (Bool-cases (str_eq tag (codes "beta"))) [
    | inl beta ↦
        let e = (str_eq_iff tag (codes "beta")).0 beta in rw e (inr (inr (inl (refl, refl))))
    | inr rest ↦ ground arith
  ]
]

compare_parsed_kinds :
    (v w : Version) (m n : ℕ)
    → IsKindOf m v.has_post v.pre_kind
    → IsKindOf n w.has_post w.pre_kind
    → compare_epoch v w ≡ eq
    → compare_release_version v w ≡ eq
    → m < n
    → compare_parsed v w ≡ lt
unfolding compare_parsed compare_pre_release compare_post_release compare_optional_number
    compare_ints
compare_parsed_kinds v w m n p q epochs releases h = ground arith

-- Of two texts in the grammar, with epochs and releases of equal rank, that in the earlier phase goes
-- first: first development releases, then the tags a and alpha, b and beta, c, rc, pre and preview,
-- then the final version, then post-releases.
pub compare_versions-phase :
    (left right : Str) (m n : Captures)
    → find_submatch version_re (trim_space left) ≡ some m
    → find_submatch version_re (trim_space right) ≡ some n
    → compare_epoch (version_of m) (version_of n) ≡ eq
    → compare_release_version (version_of m) (version_of n) ≡ eq
    → phase m < phase n
    → compare_versions left right ≡ some lt
unfolding compare_both parse_version version_of
compare_versions-phase left right m n found found' epochs releases h =
    let kind = λ (c : Captures).
      pre_kind_of-IsKindOf (to_lower (submatch 3 c)) (version_of c).has_post
        (version_of c).has_dev in
    compare_versions-parsed left right
    ∙ rw (found, found')
        (ap some (
          compare_parsed_kinds (version_of m) (version_of n) (phase m) (phase n) (kind m) (kind n)
            epochs releases h))
