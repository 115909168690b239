-- ===== src/VecDyn/Laws/Fresh.antt =====
-- What the constructors of `VecDyn` make.
use buffer.Common.{◌≡◌, refl, ◌<◌, [], ok}
use buffer.Bytes.{Repr}
use buffer.Traits.{Impls}
use buffer.VecCopy.Build as Inner
use buffer.VecCopy.Laws.Build.{with_type_refines}
use buffer.VecDyn.{Platform, VecDyn}
use buffer.VecDyn.Build
use buffer.VecDyn.Laws.{HoldsDyn}

pub with_type_keeps :
    (p : Platform) {A W : Type 0} (t : Repr A) (impls : Impls A W)
    → 0 < t.size_of
    → (v : VecDyn W) × (Build.with_type t impls ≡ ok v) × HoldsDyn t impls v []
unfolding Build.with_type Inner.with_type
with_type_keeps p t impls pos =
    let (d, e, h, _) = with_type_refines p t pos in (_, rw e, record { holds = h; table = refl })
