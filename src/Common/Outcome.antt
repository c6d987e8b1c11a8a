-- ===== src/Common/Outcome.antt =====
-- The outcome of code that may access memory it must not.
use mathlib.Core.Path.{◌≡◌, refl}

-- `null_deref`: a read or write through NULL. `out_of_bounds`: outside an array. `unset_pointer`: a
-- pointer that nothing set is freed or followed. `zero_divisor`: a remainder by zero. `blocked`: the
-- call waits for another process. `bad_free`: what is freed is not allocated. `use_after_free`: what
-- is used was freed.
pub data Fault : Type 0 where
  null_deref out_of_bounds unset_pointer zero_divisor blocked bad_free use_after_free : Fault

pub data Outcome {ℓ} (A : Type ℓ) : Type ℓ where
  ok : A → Outcome A
  fault : Fault → Outcome A

infixl 5 ◌>>=◌
abbrev pub ◌>>=◌ {ℓ κ} : {A : Type ℓ} {B : Type κ} → Outcome A → (A → Outcome B) → Outcome B
ok a >>= f = f a
fault e >>= f = fault e

-- Inversion of a successful bind.
pub bind-eq-ok {ℓ κ} :
    {A : Type ℓ} {B : Type κ} (m : Outcome A) (f : A → Outcome B) {b : B}
    → (m >>= f) ≡ ok b
    → (a : A) × (m ≡ ok a) × (f a ≡ ok b)
bind-eq-ok (ok a) f h = (a, refl, h)
bind-eq-ok (fault e) f h = cc

pub ok-inj {ℓ} : {A : Type ℓ} {a b : A} → ok a ≡ ok b → a ≡ b
ok-inj h = cc
