-- ===== src/Prelude/Raising.antt =====
-- A call that returns or raises. A database transaction that raises is rolled back.
use mathlib.Core.Path.{◌≡◌, refl}
use mathlib.Core.Logic.{◌⊎◌, inl, inr}
use mathlib.Core.Bool.{Bool, true, false}

pub data Outcome {ℓ κ} (E : Type ℓ) (A : Type κ) : Type (ℓ ⊔ κ) where
  ok : A → Outcome E A
  err : E → Outcome E A

infixl 5 ◌>>=◌ ◌>>◌
abbrev pub ◌>>=◌ {ℓ κ μ} :
    {E : Type ℓ} {A : Type κ} {B : Type μ} → Outcome E A → (A → Outcome E B) → Outcome E B
ok a >>= f = f a
err e >>= f = err e

abbrev pub ◌>>◌ {ℓ κ} : {E : Type ℓ} {B : Type κ} → Outcome E (Unit {0}) → Outcome E B → Outcome E B
m >> k = m >>= λ _. k

-- `if condition: raise e`.
abbrev pub raise_if {ℓ} : {E : Type ℓ} → Bool → E → Outcome E (Unit {0})
raise_if true e = err e
raise_if false e = ok tt

-- `async with engine.begin()`: what a transaction writes is kept only if it does not raise.
abbrev pub commit {ℓ κ μ} : {E : Type ℓ} {S : Type κ} {A : Type μ} → S → Outcome E (S × A) → S
commit s (ok (s', a)) = s'
commit s (err e) = s

pub Outcome-cases {ℓ κ} :
    {E : Type ℓ} {A : Type κ} (m : Outcome E A) → ((a : A) × (m ≡ ok a)) ⊎ ((e : E) × (m ≡ err e))
Outcome-cases (ok a) = inl (a, refl)
Outcome-cases (err e) = inr (e, refl)

-- Inversion of a chain that returned.
pub bind-ok {ℓ κ μ} :
    {E : Type ℓ} {A : Type κ} {B : Type μ} (m : Outcome E A) (f : A → Outcome E B) {b : B}
    → (m >>= f) ≡ ok b
    → (a : A) × (m ≡ ok a) × (f a ≡ ok b)
bind-ok (ok a) f h = (a, refl, h)
bind-ok (err e) f h = cc

-- A guard that let the call through was false.
pub raise_if-ok {ℓ κ} :
    {E : Type ℓ} {B : Type κ} (c : Bool) (e : E) (k : Outcome E B) {b : B}
    → (raise_if c e >> k) ≡ ok b
    → (c ≡ false) × (k ≡ ok b)
raise_if-ok true e k h = cc
raise_if-ok false e k h = (refl, h)

-- What a transaction leaves has a property that the state had, if the returned state has it.
pub commit-keeps {ℓ κ μ ν} :
    {E : Type ℓ} {S : Type κ} {A : Type μ} (P : S → Type ν) (s : S) (m : Outcome E (S × A))
    → P s
    → ((s' : S) (a : A) → m ≡ ok (s', a) → P s')
    → P (commit s m)
commit-keeps P s (ok (s', a)) h k = k s' a refl
commit-keeps P s (err e) h k = h
