-- ===== src/Prelude/Result.antt =====
-- A Go function that returns a value and an error returns a `Result` of the component's errors.
use mathlib.Core.Logic.{◌⊎◌, inl, inr}
use mathlib.Core.Path.{◌≡◌, refl, subst}

pub data Result {ℓ κ} (E : Type κ) (A : Type ℓ) : Type (ℓ ⊔ κ) where
  ok : A → Result E A
  err : E → Result E A

infixl 5 ◌>>=◌ ◌>>◌
abbrev pub ◌>>=◌ : {E T U : Type 0} → Result E T → (T → Result E U) → Result E U
(ok value) >>= next = next value
(err failure) >>= next = err failure

abbrev pub ◌>>◌ : {E T U : Type 0} → Result E T → Result E U → Result E U
before >> after = before >>= λ ignored. after

-- The value, if there is one, has a property.
abbrev pub Ensures : {E A : Type 0} → (A → Type 0) → Result E A → Type 0
Ensures P (ok a) = P a
Ensures P (err e) = Unit

pub Ensures-bind :
    {E A B : Type 0} (Q : B → Type 0) (m : Result E A) (f : A → Result E B)
    → ((a : A) → m ≡ ok a → Ensures Q (f a))
    → Ensures Q (m >>= f)
Ensures-bind Q (ok a) f h = h a refl
Ensures-bind Q (err e) f h = tt

pub of_Ensures :
    {E A : Type 0} (P : A → Type 0) (r : Result E A) {a : A} → Ensures P r → r ≡ ok a → P a
of_Ensures P (ok b) h e = subst P (cc) h
of_Ensures P (err b) h e = cc

pub Ensures-map :
    {E A : Type 0} {P Q : A → Type 0} (r : Result E A)
    → ((a : A) → P a → Q a)
    → Ensures P r
    → Ensures Q r
Ensures-map (ok a) f h = f a h
Ensures-map (err e) f h = tt

pub Result-cases :
    {E T : Type 0} (r : Result E T)
    → ((value : T) × (r ≡ ok value)) ⊎ ((failure : E) × (r ≡ err failure))
Result-cases (err failure) = inr (failure, refl)
Result-cases (ok value) = inl (value, refl)

-- A check and what follows it, both of which succeed.
pub both-ok :
    {E T : Type 0} (check : Result E (Unit {0})) (rest : Result E T) {result : T}
    → (check >> rest) ≡ ok result
    → (check ≡ ok tt) × (rest ≡ ok result)
both-ok (ok tt) rest e = (refl, e)
both-ok (err failure) rest e = cc

pub ok-both :
    {E T : Type 0} {check : Result E (Unit {0})} {rest : Result E T} {result : T}
    → check ≡ ok tt
    → rest ≡ ok result
    → (check >> rest) ≡ ok result
ok-both p q = rw (p, q)
