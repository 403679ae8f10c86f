-- ===== src/Common/Outcome.antt =====
-- What a fallible function of the adapter gives back: a value, an `Error` with its message, or a
-- panic (an index out of range, an `unwrap` of nothing, a division by zero). `out_of_fuel` is the
-- model's own: a loop that has not ended within its fuel.
use mathlib.Core.Path.{◌≡◌, refl}
use mathlib.Core.Option.{Option, none, some}
use vscode_lldb.Common.Text.{Text}

pub data Outcome {ℓ} (A : Type ℓ) : Type ℓ where
  ok : A → Outcome A
  err : Text → Outcome A
  panic : Outcome A
  out_of_fuel : Outcome A

infixl 5 ◌>>=◌
abbrev pub ◌>>=◌ {ℓ κ} : {A : Type ℓ} {B : Type κ} → Outcome A → (A → Outcome B) → Outcome B
ok a >>= f = f a
err e >>= f = err e
panic >>= f = panic
out_of_fuel >>= f = out_of_fuel

-- A successful chain has a successful first step.
pub bind-eq-ok {ℓ κ} :
    {A : Type ℓ} {B : Type κ} (m : Outcome A) (f : A → Outcome B) {b : B}
    → (m >>= f) ≡ ok b
    → (a : A) × (m ≡ ok a) × (f a ≡ ok b)
bind-eq-ok (ok a) f h = (a, refl, h)
bind-eq-ok (err e) f h = cc
bind-eq-ok panic f h = cc
bind-eq-ok out_of_fuel f h = cc

abbrev pub or_err {ℓ} : {A : Type ℓ} → Text → Option A → Outcome A
or_err e none = err e
or_err e (some a) = ok a
