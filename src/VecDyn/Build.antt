-- ===== src/VecDyn/Build.antt =====
-- The constructors of `VecDyn` (src/vec_dyn.rs).
use buffer.Common.{ℕ, List}
use buffer.Common.Effects.{Eff, lift, ◌>>=◌}
use buffer.Common.Outcomes
use buffer.Common.Outcomes.{Outcome, ok}
use buffer.Std.Platform.{Platform}
use buffer.Std.Vec.{Vec, vec}
use buffer.Bytes.{Repr}
use buffer.Traits.{Impls, build_vtable}
use buffer.VecCopy.Build
use buffer.VecCopy.{VecCopy}
use buffer.Elements.{clone_slice, repeat_value}
use buffer.VecDyn.{VecDyn}

unfoldable pub with_type_from : {W : Type 0} → VecDyn W → VecDyn W
with_type_from other = record other { elements = Build.with_type_from other.elements }

module _ {A W : Type 0} (t : Repr A) (impls : Impls A W) where
  with_vtable : Outcome VecCopy → Outcome (VecDyn W)
  with_vtable elements =
      Outcomes.◌>>=◌ elements (λ d. ok (record { elements = d; vtable = build_vtable t impls }))

  unfoldable pub with_type : Outcome (VecDyn W)
  unfolding with_vtable
  with_type = with_vtable (Build.with_type_non_copy t)

  unfoldable pub with_capacity : Platform → ℕ → Outcome (VecDyn W)
  unfolding with_vtable
  with_capacity p n = with_vtable (Build.with_capacity_non_copy p t n)

  unfoldable pub from_vec : Platform → Vec A → Outcome (VecDyn W)
  unfolding with_vtable
  from_vec p v = with_vtable (Build.from_vec_non_copy p t v)

  -- `VecCopy::from_slice_non_copy` over clones of the elements.
  unfoldable pub from_slice : Platform → List A → Eff W (VecDyn W)
  unfolding with_vtable
  from_slice p slice = do
    cloned ← clone_slice impls slice
    lift (with_vtable (Build.from_slice_non_copy p t cloned))

  unfoldable pub with_size : Platform → ℕ → A → Eff W (VecDyn W)
  unfolding with_vtable
  with_size p n def = do
    elements ← repeat_value impls n def
    lift (with_vtable (Build.from_vec_non_copy p t (vec elements n)))
