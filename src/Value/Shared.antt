-- ===== src/Value/Shared.antt =====
-- `ValueRef` of src/value.rs: a reference to a value whose type is known at run time.
use buffer.Common.{ℕ, List, Bool, Option, Outcome, ok, ◌>>=◌}
use buffer.Common.Effects
use buffer.Common.Effects.{Eff, lift, pure}
use buffer.Bytes.{Repr, as_bytes, from_bytes}
use buffer.Traits.{Impls, VTable, build_vtable}
use buffer.Value.{BoxValue, ValueRef, as_ref, ref, owned}
use buffer.Value.Copy.{downcast_with}

module _ {A W : Type 0} (t : Repr A) (impls : Impls A W) where
  unfoldable pub new : A → Outcome (ValueRef W)
  new typed = do
    bytes ← as_bytes t typed
    ok (record { bytes = bytes; type_id = t.type_id; vtable = owned (build_vtable t impls) })

module _ {W : Type 0} where
  abbrev pub from_raw_parts : List ℕ → ℕ → VTable W → ValueRef W
  from_raw_parts bytes type_id vtable = record {
    bytes = bytes;
    type_id = type_id;
    vtable = ref vtable;
  }

  -- `PartialEq::eq`, by the table of the first value.
  unfoldable pub eq : ValueRef W → ValueRef W → Outcome Bool
  eq v other = (as_ref v.vtable).eq_fn v.bytes other.bytes

  -- `Hash::hash`
  unfoldable pub hash : ValueRef W → List ℕ → Outcome (List ℕ)
  hash v state = (as_ref v.vtable).hash_fn v.bytes state

  unfoldable pub clone_value : ValueRef W → Eff W (BoxValue W)
  clone_value v =
      Effects.◌>>=◌ ((as_ref v.vtable).clone_fn v.bytes)
        (λ bytes. pure (record { bytes = bytes; type_id = v.type_id; vtable = as_ref v.vtable }))

unfoldable pub downcast : {A W : Type 0} → Repr A → ValueRef W → Outcome (Option A)
downcast t v = downcast_with t v.type_id (from_bytes t v.bytes)
