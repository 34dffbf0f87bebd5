-- ===== src/Tests/Versions.antt =====
-- internal/report/pep440/pep440.go at concrete versions.
use lopper.Prelude.{◌≡◌, refl, some, lt, gt}
use lopper.Text.{codes}
use lopper.Pep440.Compare.{compare_versions}

post_after_final : compare_versions (codes "1.0.post1") (codes "v1.0.0") ≡ some gt
unfolding compare_versions
post_after_final = refl

dev_before_alpha : compare_versions (codes "1!2.0.DEV3") (codes "1!2a1") ≡ some lt
unfolding compare_versions
dev_before_alpha = refl
