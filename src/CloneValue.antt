-- ===== src/CloneValue.antt =====
-- The type-erased values of src/clone_value.rs, which carry the functions of the traits that they
-- need in place of a table.
pub mod Laws
pub mod RcValue
pub mod ArcValue
use buffer.Common.{ℕ, List, Option, none, some, ◌==◌, if◌then◌else◌, Outcome, ok}
use buffer.Common.Outcomes
use buffer.Common.Effects.{Eff, lift, pure, ◌>>=◌, ◌>>◌}
use buffer.Std.Slice.{swap_with_slice}
use buffer.Bytes.{
  Repr, RefMut, box_into_box_bytes, box_from_box_bytes, as_bytes, as_bytes_mut, from_bytes,
  from_bytes_mut,
}
use buffer.Traits.{Impls, drop_bytes, clone_bytes, clone_from_bytes}
use buffer.Value.Copy.{is, downcast_with}

pub record BoxValue (W : Type 0) : Type 0 where
  pub bytes : List ℕ
  pub type_id : ℕ
  pub clone_fn : List ℕ → Eff W (List ℕ)
  pub drop_fn : List ℕ → Eff W (Unit {0})

-- The bytes are borrowed.
pub record CloneValueRef : Type 0 where
  pub bytes : List ℕ
  pub type_id : ℕ

pub record CloneValueMut (W : Type 0) : Type 0 where
  pub bytes : List ℕ
  pub type_id : ℕ
  pub clone_from_fn : List ℕ → List ℕ → Eff W (List ℕ)

abbrev pub ref_from_raw_parts : List ℕ → ℕ → CloneValueRef
ref_from_raw_parts bytes type_id = record { bytes = bytes; type_id = type_id }

-- `CloneValueRef::downcast`
unfoldable pub ref_downcast : {A : Type 0} → Repr A → CloneValueRef → Outcome (Option A)
ref_downcast t v = downcast_with t v.type_id (from_bytes t v.bytes)

-- `CloneValueRef::new`
unfoldable pub ref_new : {A : Type 0} → Repr A → A → Outcome CloneValueRef
ref_new t typed =
    Outcomes.◌>>=◌ (as_bytes t typed) (λ bytes. ok (record { bytes = bytes; type_id = t.type_id }))

module _ {W : Type 0} where
  abbrev pub mut_from_raw_parts : List ℕ → ℕ → (List ℕ → List ℕ → Eff W (List ℕ)) → CloneValueMut W
  mut_from_raw_parts bytes type_id clone_from_fn = record {
    bytes = bytes;
    type_id = type_id;
    clone_from_fn = clone_from_fn;
  }

  -- `From<CloneValueMut> for CloneValueRef`
  abbrev pub to_ref : CloneValueMut W → CloneValueRef
  to_ref v = record { bytes = v.bytes; type_id = v.type_id }

  -- `CloneValueMut::swap`: both values after it.
  unfoldable pub swap :
      CloneValueMut W → CloneValueMut W → Outcome (CloneValueMut W × CloneValueMut W)
  swap v other =
      if v.type_id == other.type_id
      then Outcomes.◌>>=◌ (swap_with_slice v.bytes other.bytes)
          (λ r. ok (record v { bytes = r.0 }, record other { bytes = r.1 }))
      else ok (v, other)

  -- `CloneValueMut::clone_from`: the value after it.
  unfoldable pub clone_from : CloneValueMut W → CloneValueRef → Eff W (CloneValueMut W)
  clone_from v other =
      if v.type_id == other.type_id
      then (do bytes ← v.clone_from_fn v.bytes other.bytes; pure (record v { bytes = bytes }))
      else pure v

  -- `Clone for BoxValue`
  unfoldable pub clone : BoxValue W → Eff W (BoxValue W)
  clone v = do bytes ← v.clone_fn v.bytes; pure (record v { bytes = bytes })

  -- `Drop for BoxValue`
  unfoldable pub drop : BoxValue W → Eff W (Unit {0})
  drop v = v.drop_fn v.bytes

-- `BoxValue::downcast`: the value that the closure takes is dropped at its end.
unfoldable pub downcast : {A W : Type 0} → Repr A → BoxValue W → Eff W (Option A)
downcast t v =
    if is t v.type_id
    then (do b ← lift (box_from_box_bytes t v.bytes); drop v; pure (some b))
    else (do drop v; pure none)

-- `CloneValueMut::downcast`
unfoldable pub mut_downcast :
    {A W : Type 0} → Repr A → CloneValueMut W → Outcome (Option (RefMut A (List ℕ)))
mut_downcast t v = downcast_with t v.type_id (from_bytes_mut t v.bytes)

module _ {A W : Type 0} (t : Repr A) (impls : Impls A W) where
  -- `BoxValue::new`
  unfoldable pub new : A → Outcome (BoxValue W)
  new typed = Outcomes.◌>>=◌ (box_into_box_bytes t typed) (λ bytes. ok (record {
    bytes = bytes;
    type_id = t.type_id;
    clone_fn = clone_bytes t impls;
    drop_fn = drop_bytes t impls;
  }))

  -- `CloneValueMut::new`: a write to the borrowed bytes is a write to the value.
  unfoldable pub mut_new : A → Outcome (RefMut (CloneValueMut W) (Outcome A))
  mut_new typed = Outcomes.◌>>=◌ (as_bytes_mut t typed) (λ bytes. ok (record {
    value = record {
      bytes = bytes.value;
      type_id = t.type_id;
      clone_from_fn = clone_from_bytes t impls;
    };
    put = λ (v : CloneValueMut W). bytes.put v.bytes;
  }))
