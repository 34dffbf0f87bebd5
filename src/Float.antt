-- ===== src/Float.antt =====
-- Go's `float64`, which the language implements: what the program computes with it. Results that
-- need a law of the arithmetic name it as a hypothesis.
use lopper.Prelude.{ℕ, Bool, if◌then◌else◌}

pub record Float64 : Type 1 where
  pub Carrier : Type 0
  pub of_nat : ℕ → Carrier
  pub add : Carrier → Carrier → Carrier
  pub sub : Carrier → Carrier → Carrier
  pub mul : Carrier → Carrier → Carrier
  pub div : Carrier → Carrier → Carrier
  pub lt : Carrier → Carrier → Bool
  pub le : Carrier → Carrier → Bool
  pub is_finite : Carrier → Bool
  pub round : Carrier → Carrier
  pub neg : Carrier → Carrier

module _ (float : Float64) where
  -- The literal m / n, such as 0.35 for 35 / 100: division rounds it as the compiler does.
  abbrev pub literal : ℕ → ℕ → float.Carrier
  literal m n = float.div (float.of_nat m) (float.of_nat n)

  -- `(float64(used) / float64(total)) * 100`.
  abbrev pub percent_of : ℕ → ℕ → float.Carrier
  percent_of used total =
      float.mul (float.div (float.of_nat used) (float.of_nat total)) (float.of_nat 100)

  -- `roundTo` of internal/report/scoring.go to one place; `math.Round` is `round`.
  abbrev pub round_to_tenth : float.Carrier → float.Carrier
  round_to_tenth value =
      float.div (float.round (float.mul value (float.of_nat 10))) (float.of_nat 10)

  -- `clampScore` of internal/report/vulnerability.go.
  unfoldable pub clamp_score : float.Carrier → float.Carrier
  clamp_score value =
      if float.lt value (float.of_nat 0)
      then float.of_nat 0
      else if float.lt (float.of_nat 100) value
      then float.of_nat 100
      else value
