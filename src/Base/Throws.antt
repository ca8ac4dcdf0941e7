-- ===== src/Base/Throws.antt =====
-- The result of code that may throw: a value or the exception, with the chain of such code.
use mathlib.Core.Path.{◌≡◌, refl}
use mathlib.Core.Logic.{◌⊎◌, inl, inr}
use native.Mathlib.Omega.{arith}
use mathlib.Core.Bool.{Bool, true, false}

pub data Result {ℓ} (E : Type 0) (A : Type ℓ) : Type ℓ where
  ok : A → Result E A
  err : E → Result E A

ok_not_err {ℓ} : {E : Type 0} {A : Type ℓ} {e : E} {a : A} → err e ≡ ok a → ⊥
ok_not_err h = ground arith

-- The chain stops at the first exception.
infixl 5 ◌>>=◌
abbrev pub ◌>>=◌ {ℓ κ} :
    {E : Type 0} {A : Type ℓ} {B : Type κ} → Result E A → (A → Result E B) → Result E B
err exception >>= next = err exception
ok value >>= next = next value

infixl 5 ◌>>◌
abbrev pub ◌>>◌ {ℓ} : {E : Type 0} {B : Type ℓ} → Result E (Unit {0}) → Result E B → Result E B
check >> rest = check >>= λ _. rest

-- `if (bad) throw e;`
abbrev pub throw_if : {E : Type 0} → Bool → E → Result E (Unit {0})
throw_if true e = err e
throw_if false e = ok tt

pub Result-cases {ℓ} :
    {E : Type 0} {A : Type ℓ} (r : Result E A) → ((a : A) × (r ≡ ok a)) ⊎ ((e : E) × (r ≡ err e))
Result-cases (ok a) = inl (a, refl)
Result-cases (err e) = inr (e, refl)

-- What a chain that ends well has gone through.
pub bind-ok {ℓ κ} :
    {E : Type 0} {A : Type ℓ} {B : Type κ} {r : Result E A} {next : A → Result E B} {b : B}
    → (r >>= next) ≡ ok b
    → (a : A) × (r ≡ ok a) × (next a ≡ ok b)
bind-ok {r = ok a} e = (a, refl, e)
bind-ok {r = err x} e = absurd (ok_not_err e)

pub then-ok {ℓ} :
    {E : Type 0} {B : Type ℓ} {check : Result E (Unit {0})} {rest : Result E B} {b : B}
    → (check >> rest) ≡ ok b
    → (check ≡ ok tt) × (rest ≡ ok b)
then-ok {check = ok a} e = (refl, e)
then-ok {check = err x} e = absurd (ok_not_err e)
