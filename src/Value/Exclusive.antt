-- ===== src/Value/Exclusive.antt =====
-- `ValueMut` of src/value.rs. An operation through `&mut` returns the values after it.
use buffer.Common.{ℕ, List, Bool, Option, if◌then◌else◌, ◌==◌, Outcome, ok, ◌>>=◌}
use buffer.Common.Effects
use buffer.Common.Effects.{Eff, lift, pure}
use buffer.Std.Slice.{swap_with_slice}
use buffer.Bytes.{Repr, RefMut, as_bytes_mut, from_bytes_mut}
use buffer.Traits.{Impls, VTable, build_vtable}
use buffer.Value.{ValueRef, ValueMut, as_ref, ref, owned}
use buffer.Value.Copy.{downcast_with}

module _ {A W : Type 0} (t : Repr A) (impls : Impls A W) where
  -- A write to the borrowed bytes is a write to the value.
  unfoldable pub new : A → Outcome (RefMut (ValueMut W) (Outcome A))
  new typed = do
    bytes ← as_bytes_mut t typed
    ok (record {
      value = record {
        bytes = bytes.value;
        type_id = t.type_id;
        vtable = owned (build_vtable t impls);
      };
      put = λ (v : ValueMut W). bytes.put v.bytes;
    })

module _ {W : Type 0} where
  abbrev pub from_raw_parts : List ℕ → ℕ → VTable W → ValueMut W
  from_raw_parts bytes type_id vtable = record {
    bytes = bytes;
    type_id = type_id;
    vtable = ref vtable;
  }

  -- `From<ValueMut> for ValueRef`
  abbrev pub to_ref : ValueMut W → ValueRef W
  to_ref v = record { bytes = v.bytes; type_id = v.type_id; vtable = v.vtable }

  -- `PartialEq::eq`
  unfoldable pub eq : ValueMut W → ValueMut W → Outcome Bool
  eq v other = (as_ref v.vtable).eq_fn v.bytes other.bytes

  unfoldable pub swap : ValueMut W → ValueMut W → Outcome (ValueMut W × ValueMut W)
  swap v other =
      if v.type_id == other.type_id
      then (do
        (a, b) ← swap_with_slice v.bytes other.bytes
        ok (record v { bytes = a }, record other { bytes = b }))
      else ok (v, other)

  unfoldable pub clone_from : ValueMut W → ValueRef W → Eff W (ValueMut W)
  clone_from v other =
      if v.type_id == other.type_id
      then Effects.◌>>=◌ ((as_ref v.vtable).clone_from_fn v.bytes other.bytes)
          (λ bytes. pure (record v { bytes = bytes }))
      else pure v

unfoldable pub downcast :
    {A W : Type 0} → Repr A → ValueMut W → Outcome (Option (RefMut A (List ℕ)))
downcast t v = downcast_with t v.type_id (from_bytes_mut t v.bytes)
