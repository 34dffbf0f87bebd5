-- ===== src/Tests/Comparing.antt =====
-- The theorems on internal/report/pep440/pep440.go at concrete versions.
use lopper.Prelude.{◌≡◌, ◌<◌, refl, [], ◌∷◌, ◌++◌, some, lt, eq, arith, compare}
use mathlib.Core.Option
use lopper.Prelude.Order.{flip}
use lopper.Text.{codes, trim_space, to_lower, str_eq}
use lopper.Regex.{Captures, find_submatch, submatch, is_digit, fold_eq}
use lopper.Pep440.Version.{version_re, version_of, normalized_release, normalized_number}
use lopper.Pep440.Compare.{
  compare_versions, compare_numbers, compare_release_version, compare_epoch,
}
use lopper.Pep440.Numbers.{IsDigits, value, compare_numbers-value}
use lopper.Pep440.Chain.{
  compare_versions-flipped, compare_versions-transitive, compare_versions-same_rank,
}
use lopper.Pep440.Phases.{normalized_release-zero, phase, compare_versions-phase}

compare_versions-flipped_example :
    compare_versions (codes "1.0.post1") (codes "1.0a2")
    ≡ Option.map flip (compare_versions (codes "1.0a2") (codes "1.0.post1"))
compare_versions-flipped_example = compare_versions-flipped (codes "1.0a2") (codes "1.0.post1")

dev_first : compare_versions (codes "1.0.dev1") (codes "1.0rc1") ≡ some lt
unfolding compare_versions
dev_first = refl

candidate_next : compare_versions (codes "1.0rc1") (codes "1.0") ≡ some lt
unfolding compare_versions
candidate_next = refl

compare_versions-transitive_example : compare_versions (codes "1.0.dev1") (codes "1.0") ≡ some lt
compare_versions-transitive_example =
    compare_versions-transitive (codes "1.0.dev1") (codes "1.0rc1") (codes "1.0") dev_first
      candidate_next

same_version : compare_versions (codes "v1.0.0") (codes "1") ≡ some eq
unfolding compare_versions
same_version = refl

compare_versions-same_rank_example :
    compare_versions (codes "v1.0.0") (codes "1.0rc1")
    ≡ compare_versions (codes "1") (codes "1.0rc1")
compare_versions-same_rank_example =
    compare_versions-same_rank (codes "v1.0.0") (codes "1") (codes "1.0rc1") same_version

long-IsDigits : IsDigits (codes "0018446744073709551617")
unfolding is_digit
long-IsDigits = refl

short-IsDigits : IsDigits (codes "42")
unfolding is_digit
short-IsDigits = refl

compare_numbers-value_example :
    compare_numbers
      (normalized_number (codes "0018446744073709551617"))
      (normalized_number (codes "42"))
    ≡ compare (value (codes "0018446744073709551617")) (value (codes "42"))
compare_numbers-value_example =
    compare_numbers-value (codes "0018446744073709551617") (codes "42") (λ e. ground arith)
      (λ e. ground arith) long-IsDigits short-IsDigits

normalized_release-zero_example :
    normalized_release (codes "1.2" ++ codes ".0") ≡ normalized_release (codes "1.2")
normalized_release-zero_example = normalized_release-zero (codes "1.2")

abbrev dev_found : Captures
dev_found = (9, codes "1") ∷ (8, codes "dev") ∷ (2, codes "1.0") ∷ []

abbrev alpha_found : Captures
alpha_found = (4, codes "2") ∷ (3, codes "ALPHA") ∷ (2, codes "1.0") ∷ []

finds_dev : find_submatch version_re (trim_space (codes "1.0.dev1")) ≡ some dev_found
unfolding find_submatch trim_space is_digit fold_eq
finds_dev = refl

finds_alpha : find_submatch version_re (trim_space (codes " 1.0-ALPHA2")) ≡ some alpha_found
unfolding find_submatch trim_space is_digit fold_eq
finds_alpha = refl

same_epoch : compare_epoch (version_of dev_found) (version_of alpha_found) ≡ eq
unfolding compare_versions version_of
same_epoch = refl

same_release : compare_release_version (version_of dev_found) (version_of alpha_found) ≡ eq
unfolding compare_versions version_of
same_release = refl

dev-before-alpha : phase dev_found < phase alpha_found
unfolding submatch to_lower str_eq
dev-before-alpha = omega arith

compare_versions-phase_example : compare_versions (codes "1.0.dev1") (codes " 1.0-ALPHA2") ≡ some lt
compare_versions-phase_example =
    compare_versions-phase (codes "1.0.dev1") (codes " 1.0-ALPHA2") dev_found alpha_found finds_dev
      finds_alpha same_epoch same_release dev-before-alpha
