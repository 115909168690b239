-- ===== src/Common/Effects.antt =====
-- Calls that also change the world: reference counts, and whatever else a clone or a drop touches.
use buffer.Common.Outcomes
use buffer.Common.Outcomes.{Outcome, ok, panic, undefined}

-- A call over a world of type `W`.
abbrev pub Eff : Type 0 → Type 0 → Type 0
Eff W R = W → Outcome (R × W)

abbrev pub pure : {W R : Type 0} → R → Eff W R
pure r w = ok (r, w)

-- A call that leaves the world alone.
abbrev pub lift : {W R : Type 0} → Outcome R → Eff W R
lift m w = Outcomes.◌>>=◌ m (λ r. ok (r, w))

-- A change of the world alone.
abbrev pub modify : {W : Type 0} → (W → W) → Eff W (Unit {0})
modify f w = ok (tt, f w)

infixl 5 ◌>>=◌ ◌>>◌
abbrev pub ◌>>=◌ : {W R S : Type 0} → Eff W R → (R → Eff W S) → Eff W S
◌>>=◌ m next w = Outcomes.◌>>=◌ (m w) (λ r. next r.0 r.1)

abbrev pub ◌>>◌ : {W S : Type 0} → Eff W (Unit {0}) → Eff W S → Eff W S
m >> rest = m >>= λ _. rest
