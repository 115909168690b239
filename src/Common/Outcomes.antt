-- ===== src/Common/Outcomes.antt =====
-- What a call of the crate ends in: a value, a panic, or undefined behaviour.
use mathlib.Core.Path.{ap, ◌≡◌, refl}
use mathlib.Core.Bool.{Bool, true, false}
use mathlib.Core.Option.{Option, none, some}

pub data Outcome {ℓ} (A : Type ℓ) : Type ℓ where
  ok : A → Outcome A
  panic : Outcome A
  undefined : Outcome A

-- A panic or undefined behaviour ends the call: what follows is not run.
infixl 5 ◌>>=◌ ◌>>◌
abbrev pub ◌>>=◌ {ℓ κ} : {R : Type ℓ} {S : Type κ} → Outcome R → (R → Outcome S) → Outcome S
undefined >>= next = undefined
panic >>= next = panic
ok result >>= next = next result

abbrev pub ◌>>◌ {κ} : {S : Type κ} → Outcome (Unit {0}) → Outcome S → Outcome S
check >> rest = check >>= λ _. rest

-- `assert!`
abbrev pub assert : Bool → Outcome (Unit {0})
assert true = ok tt
assert false = panic

-- A read that has a value only on bytes that represent one.
abbrev pub defined {ℓ} : {A : Type ℓ} → Option A → Outcome A
defined none = undefined
defined (some a) = ok a

-- The value of an outcome that has one.
value_or {ℓ} : {A : Type ℓ} → A → Outcome A → A
value_or d (ok a) = a
value_or d panic = d
value_or d undefined = d

pub ok-injective {ℓ} : {A : Type ℓ} {a b : A} → ok a ≡ ok b → a ≡ b
unfolding value_or
ok-injective {a = a} e = ap (value_or a) e

-- What holds of the value, if there is one.
abbrev pub Returns {ℓ κ} : {A : Type ℓ} → (A → Type κ) → Outcome A → Type κ
Returns P (ok a) = P a
Returns P panic = Unit
Returns P undefined = Unit

pub Returns->>= {ℓ κ μ} :
    {A : Type ℓ} {B : Type κ} (P : B → Type μ) (m : Outcome A) (f : A → Outcome B)
    → ((a : A) → m ≡ ok a → Returns P (f a))
    → Returns P (m >>= f)
Returns->>= P (ok a) f h = h a refl
Returns->>= P panic f h = tt
Returns->>= P undefined f h = tt
