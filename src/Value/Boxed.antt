-- ===== src/Value/Boxed.antt =====
-- `BoxValue` of src/value.rs: a value that owns its bytes, and drops them.
use buffer.Common.{ℕ, List, Bool, Option, none, some, if◌then◌else◌, Outcome, ok}
use buffer.Common.Outcomes
use buffer.Common.Effects.{Eff, lift, pure, ◌>>=◌, ◌>>◌}
use buffer.Bytes.{Repr, RefMut, box_into_box_bytes, box_from_box_bytes}
use buffer.Traits.{Impls, VTable, build_vtable}
use buffer.Value.{BoxValue, ValueRef, ValueMut, ref}
use buffer.Value.Copy.{is}

module _ {A W : Type 0} (t : Repr A) (impls : Impls A W) where
  unfoldable pub new : A → Outcome (BoxValue W)
  new value =
      Outcomes.◌>>=◌ (box_into_box_bytes t value)
        (λ bytes. ok (record { bytes = bytes; type_id = t.type_id; vtable = build_vtable t impls }))

module _ {W : Type 0} where
  abbrev pub from_raw_parts : List ℕ → ℕ → VTable W → BoxValue W
  from_raw_parts bytes type_id vtable = record { bytes = bytes; type_id = type_id; vtable = vtable }

  abbrev pub as_ref : BoxValue W → ValueRef W
  as_ref v = record { bytes = v.bytes; type_id = v.type_id; vtable = ref v.vtable }

  -- A write to the bytes of the reference is one to those of the value.
  abbrev pub as_mut : BoxValue W → RefMut (ValueMut W) (BoxValue W)
  as_mut v = record {
    value = record { bytes = v.bytes; type_id = v.type_id; vtable = ref v.vtable };
    put = λ (m : ValueMut W). record v { bytes = m.bytes };
  }

  -- `Drop::drop`
  unfoldable pub drop : BoxValue W → Eff W (Unit {0})
  drop v = v.vtable.drop_fn v.bytes

  -- `Clone::clone`
  unfoldable pub clone : BoxValue W → Eff W (BoxValue W)
  clone v = do bytes ← v.vtable.clone_fn v.bytes; pure (record v { bytes = bytes })

  -- `PartialEq::eq`
  unfoldable pub eq : BoxValue W → BoxValue W → Outcome Bool
  eq v other = v.vtable.eq_fn v.bytes other.bytes

  -- `Hash::hash`
  unfoldable pub hash : BoxValue W → List ℕ → Outcome (List ℕ)
  hash v state = v.vtable.hash_fn v.bytes state

module _ {A W : Type 0} (t : Repr A) where
  -- The value that a call of `f` takes is still dropped when `f` returns, since `f` takes only its
  -- bytes; a value of another type is dropped too.
  unfoldable pub downcast : BoxValue W → Eff W (Option A)
  downcast v =
      if is t v.type_id
      then (do b ← lift (box_from_box_bytes t v.bytes); drop v; pure (some b))
      else (do drop v; pure none)
