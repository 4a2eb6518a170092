-- ===== src/Prelude/Results.antt =====
-- Rust's `Result`, and `Option` as the monad of code that may panic.
use mathlib.Core.Path.{◌≡◌, refl}
use mathlib.Core.Logic.{◌⊎◌, inl, inr}
use mathlib.Core.Option.{Option, none, some}
use native.Mathlib.Omega.{arith}

pub data Result {ℓ κ} (E : Type ℓ) (A : Type κ) : Type (ℓ ⊔ κ) where
  ok : A → Result E A
  err : E → Result E A

infixl 5 ◌>>=◌
abbrev pub ◌>>=◌ {ℓ κ} : {A : Type ℓ} {B : Type κ} → Option A → (A → Option B) → Option B
none >>= f = none
some a >>= f = f a

-- A successful bind has a successful first part.
pub >>=-eq-some {ℓ κ} :
    {A : Type ℓ} {B : Type κ} (m : Option A) (f : A → Option B) {b : B}
    → (m >>= f) ≡ some b
    → (a : A) × (m ≡ some a) × (f a ≡ some b)
>>=-eq-some none f h = absurd (ground arith)
>>=-eq-some (some a) f h = (a, refl, h)

-- `.expect(…)` on the outcome of a call that also changes a store: `none` is the panic.
abbrev pub expect {ℓ κ ι} : {E : Type ℓ} {A : Type κ} {S : Type ι} → Result E A × S → Option S
expect (ok a, s) = some s
expect (err e, s) = none

abbrev pub expect_value {ℓ κ} : {E : Type ℓ} {A : Type κ} → Result E A → Option A
expect_value (ok a) = some a
expect_value (err e) = none

pub Result-cases :
    {E A : Type 0} (r : Result E A) → ((e : E) × (r ≡ err e)) ⊎ ((a : A) × (r ≡ ok a))
Result-cases (err e) = inl (e, refl)
Result-cases (ok a) = inr (a, refl)
