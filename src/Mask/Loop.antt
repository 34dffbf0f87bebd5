-- ===== src/Mask/Loop.antt =====
-- The loop `for i := 0; i < n; i++` whose body may move the index ahead.
use lopper.Prelude.{
  ℕ, zero, suc, ◌-◌, ◌≡◌, true, refl, Option, none, some, ltb, leb, arith, if◌then◌else◌,
  Bool-cases, inl, inr,
}

-- The body gives the index that the increment starts from. None where the rounds do not suffice.
unfoldable pub each_index : {S : Type 0} → (ℕ → S → S × ℕ) → ℕ → ℕ → ℕ → S → Option S
each_index body len zero i s = if ltb i len then none else some s
each_index body len (suc fuel) i s =
    let next = body i s in
    let rest = each_index body len fuel (suc next.1) next.0 in if ltb i len then rest else some s

-- What every round keeps, the loop keeps, and it ends where no round moves the index back.
pub each_index-kept :
    {S : Type 0} (P : S → Type 0) (body : ℕ → S → S × ℕ) (len : ℕ)
    → ((i : ℕ) (s : S) → P s → P (body i s).0 × (leb i (body i s).1 ≡ true))
    → (fuel i : ℕ) (s : S) → leb (len - i) fuel ≡ true
    → P s
    → (out : S) × (each_index body len fuel i s ≡ some out) × P out
unfolding each_index
each_index-kept P body len step zero i s h p = (s, ground arith, p)
each_index-kept P body len step (suc fuel) i s h p = elim (Bool-cases (ltb i len)) [
  | inl t ↦
      let (q, m) = step i s p in
      let (out, e, r) =
        each_index-kept P body len step fuel (suc (body i s).1) (body i s).0 (ground arith) q in
      (out, rw t e, r)
  | inr f ↦ (s, rw f refl, p)
]

infixl 5 ◌>>=◌
abbrev pub ◌>>=◌ : {A B : Type 0} → Option A → (A → Option B) → Option B
none >>= f = none
some a >>= f = f a

-- Two results in a row, where the first has a property that the second needs.
pub bind-kept :
    {A B : Type 0} (P : A → Type 0) (Q : B → Type 0) (o : Option A) (f : A → Option B)
    → (a : A) × (o ≡ some a) × P a
    → ((a : A) → P a → (b : B) × (f a ≡ some b) × Q b)
    → (b : B) × ((o >>= f) ≡ some b) × Q b
bind-kept P Q o f (a, e, p) step = rw e (step a p)
