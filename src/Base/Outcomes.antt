-- ===== src/Base/Outcomes.antt =====
-- A computation that may stop in a runtime panic: a nil dereference or an index out of range.
-- What had been written before the panic is not modelled.
use mathlib.Core.Path.{◌≡◌, refl}
use mathlib.Core.Option.{Option, none, some}

pub data Outcome {ℓ} (A : Type ℓ) : Type ℓ where
  ok : A → Outcome A
  panic : Outcome A

infixl 5 ◌>>=◌
abbrev pub ◌>>=◌ {ℓ κ} : {A : Type ℓ} {B : Type κ} → Outcome A → (A → Outcome B) → Outcome B
ok a >>= f = f a
panic >>= f = panic

-- Reads through a pointer that may be nil.
abbrev pub deref {ℓ} : {A : Type ℓ} → Option A → Outcome A
deref none = panic
deref (some a) = ok a

-- The computation returns, and its result satisfies `P`.
abbrev pub Returns {ℓ} : {A : Type ℓ} → (A → Type 0) → Outcome A → Type 0
Returns P (ok a) = P a
Returns P panic = ⊥

pub Returns-bind {ℓ κ} :
    {A : Type ℓ} {B : Type κ} (P : A → Type 0) (Q : B → Type 0) (m : Outcome A) (f : A → Outcome B)
    → Returns P m
    → ((a : A) → P a → Returns Q (f a))
    → Returns Q (m >>= f)
Returns-bind P Q (ok a) f h k = k a h
Returns-bind P Q panic f h k = absurd h

pub Returns-eq {ℓ} :
    {A : Type ℓ} (P : A → Type 0) (m : Outcome A) → Returns P m → (a : A) × (m ≡ ok a) × P a
Returns-eq P (ok a) h = (a, refl, h)
Returns-eq P panic h = absurd h

pub Returns-mono {ℓ} :
    {A : Type ℓ} (P Q : A → Type 0) (m : Outcome A)
    → Returns P m
    → ((a : A) → P a → Q a)
    → Returns Q m
Returns-mono P Q (ok a) h k = k a h
Returns-mono P Q panic h k = h
