-- ===== src/Value/Copy.antt =====
-- `CopyValueRef` and `CopyValueMut` of src/value.rs: type-erased references to `Copy` values.
-- A reference is the bytes that it borrows; an operation through `&mut` returns the bytes after it.
use buffer.Common.{
  ℕ, List, Bool, Option, none, some, ◌==◌, if◌then◌else◌, length, Outcome, ok, ◌>>=◌,
}
use buffer.Std.Slice.{copy_from_slice, swap_with_slice}
use buffer.Bytes.{Repr, RefMut, as_bytes, as_bytes_mut, from_bytes, from_bytes_mut}

pub record CopyValueRef : Type 0 where
  pub bytes : List ℕ
  pub type_id : ℕ

pub record CopyValueMut : Type 0 where
  pub bytes : List ℕ
  pub type_id : ℕ

-- `impl_value_base!`: each value type has a copy of these, over its bytes and its type.
abbrev pub size : CopyValueRef → ℕ
size self = length self.bytes

abbrev pub value_type_id : CopyValueRef → ℕ
value_type_id self = self.type_id

-- `From<CopyValueMut> for CopyValueRef`
abbrev pub to_ref : CopyValueMut → CopyValueRef
to_ref v = record { bytes = v.bytes; type_id = v.type_id }

abbrev pub from_raw_parts : List ℕ → ℕ → CopyValueRef
from_raw_parts bytes type_id = record { bytes = bytes; type_id = type_id }

abbrev pub mut_from_raw_parts : List ℕ → ℕ → CopyValueMut
mut_from_raw_parts bytes type_id = record { bytes = bytes; type_id = type_id }

unfoldable pub is : {A : Type 0} → Repr A → ℕ → Bool
is t type_id = type_id == t.type_id

-- `f(self)`, if the value is of type `T`.
unfoldable pub downcast_with : {A U : Type 0} → Repr A → ℕ → Outcome U → Outcome (Option U)
unfolding is
downcast_with t type_id f = if is t type_id then (do u ← f; ok (some u)) else ok none

-- `CopyValueMut::copy`: `none` if the types differ.
unfoldable pub copy : CopyValueMut → CopyValueRef → Outcome (Option CopyValueMut)
unfolding copy_from_slice
copy self other =
    if self.type_id == other.type_id
    then (do
      bytes ← copy_from_slice self.bytes other.bytes
      ok (some (record self { bytes = bytes })))
    else ok none

-- `CopyValueMut::swap`: both values after it.
unfoldable pub swap : CopyValueMut → CopyValueMut → Outcome (CopyValueMut × CopyValueMut)
unfolding swap_with_slice
swap self other =
    if self.type_id == other.type_id
    then (do
      (a, b) ← swap_with_slice self.bytes other.bytes
      ok (
        record { bytes = a; type_id = other.type_id },
        record { bytes = b; type_id = self.type_id },
      ))
    else ok (self, other)

module _ {A : Type 0} (t : Repr A) where
  -- `CopyValueRef::new`
  unfoldable pub new : A → Outcome CopyValueRef
  unfolding as_bytes
  new typed = do bytes ← as_bytes t typed; ok (record { bytes = bytes; type_id = t.type_id })

  -- `CopyValueMut::new`: a write to the borrowed bytes is a write to the value.
  unfoldable pub mut_new : A → Outcome (RefMut CopyValueMut (Outcome A))
  unfolding as_bytes_mut
  mut_new typed = do
    bytes ← as_bytes_mut t typed
    ok (record {
      value = record { bytes = bytes.value; type_id = t.type_id };
      put = λ v. bytes.put v.bytes;
    })

  -- `CopyValueRef::downcast`
  unfoldable pub downcast : CopyValueRef → Outcome (Option A)
  unfolding downcast_with
  downcast self = downcast_with t self.type_id (from_bytes t self.bytes)

  -- `CopyValueMut::downcast`
  unfoldable pub mut_downcast : CopyValueMut → Outcome (Option (RefMut A (List ℕ)))
  unfolding downcast_with
  mut_downcast self = downcast_with t self.type_id (from_bytes_mut t self.bytes)
