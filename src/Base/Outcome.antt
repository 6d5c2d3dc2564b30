-- ===== src/Base/Outcome.antt =====
-- `Result<A, E>` and the chain of fallible steps that `?` writes.
use mathlib.Core.Path.{◌≡◌, refl, ap, subst}
use mathlib.Core.Logic.{◌⊎◌, inl, inr}

pub data Result {ℓ κ} (A : Type ℓ) (E : Type κ) : Type (ℓ ⊔ κ) where
  ok : A → Result A E
  err : E → Result A E

infixl 5 ◌>>=◌ ◌>>◌
abbrev pub ◌>>=◌ {ℓ κ μ} :
    {A : Type ℓ} {B : Type κ} {E : Type μ} → Result A E → (A → Result B E) → Result B E
ok a >>= f = f a
err e >>= f = err e

abbrev pub ◌>>◌ {κ μ} : {B : Type κ} {E : Type μ} → Result (Unit {0}) E → Result B E → Result B E
m >> k = m >>= λ _. k

pub Result-cases {ℓ κ} :
    {A : Type ℓ} {E : Type κ} (r : Result A E) → ((a : A) × (r ≡ ok a)) ⊎ ((e : E) × (r ≡ err e))
Result-cases (ok a) = inl (a, refl)
Result-cases (err e) = inr (e, refl)

pub ok_eq : {A E : Type 0} {a b : A} → ◌≡◌ {A = Result A E} (ok a) (ok b) → a ≡ b
ok_eq h = cc

pub err_not_ok : {A E : Type 0} {a : A} {e : E} → err e ≡ ok a → ⊥
err_not_ok h = cc

-- Inversion of a chain that succeeds.
pub bind_ok :
    {A B E : Type 0} (r : Result A E) (f : A → Result B E) {b : B}
    → (r >>= f) ≡ ok b
    → (a : A) × (r ≡ ok a) × (f a ≡ ok b)
bind_ok (ok a) f h = (a, refl, h)
bind_ok (err e) f h = absurd (err_not_ok h)

-- Inversion of a chain that fails.
pub bind_err :
    {A B E : Type 0} (r : Result A E) (f : A → Result B E) {e : E}
    → (r >>= f) ≡ err e
    → (r ≡ err e) ⊎ ((a : A) × (r ≡ ok a) × (f a ≡ err e))
bind_err (ok a) f h = inr (a, refl, h)
bind_err (err e) f h = let same : e ≡ _ = cc h in inl (ap err same)

-- What a result guarantees: `Q` of its value, or `F` of its error.
pub data Ensures {A E : Type 0} (Q : A → Type 0) (F : E → Type 0) : Result A E → Type 0 where
  returns : {a : A} → Q a → Ensures Q F (ok a)
  fails : {e : E} → F e → Ensures Q F (err e)

pub Ensures-bind :
    {A B E : Type 0} {P : A → Type 0} {Q : B → Type 0} {F : E → Type 0} {m : Result A E}
    (f : A → Result B E)
    → Ensures P F m
    → ((a : A) → P a → Ensures Q F (f a))
    → Ensures Q F (m >>= f)
Ensures-bind f (returns h) k = k _ h
Ensures-bind f (fails h) k = fails h

pub Ensures-weaken :
    {A E : Type 0} {P Q : A → Type 0} {F : E → Type 0} {r : Result A E}
    → Ensures P F r
    → ((a : A) → P a → Q a)
    → Ensures Q F r
Ensures-weaken (returns h) k = returns (k _ h)
Ensures-weaken (fails h) k = fails h

pub Ensures-ok :
    {A E : Type 0} {Q : A → Type 0} {F : E → Type 0} {r : Result A E} {a : A}
    → Ensures Q F r
    → r ≡ ok a
    → Q a
Ensures-ok {Q = Q} (returns h) e = let same : _ ≡ _ = cc e in subst Q same h
Ensures-ok (fails h) e = cc

pub Ensures-err :
    {A E : Type 0} {Q : A → Type 0} {F : E → Type 0} {r : Result A E} {x : E}
    → Ensures Q F r
    → r ≡ err x
    → F x
Ensures-err (returns h) e = cc
Ensures-err {F = F} (fails h) e = let same : _ ≡ _ = cc e in subst F same h

-- Nothing is asked.
pub Ensures-any :
    {A E : Type 0} (r : Result A E) → Ensures (λ (a : A). Unit {0}) (λ (e : E). Unit {0}) r
Ensures-any (ok a) = returns tt
Ensures-any (err e) = fails tt
