-- ===== src/Value.antt =====
-- The type-erased values of src/value.rs: their structures, and what they have in common.
pub mod Copy
pub mod Boxed
pub mod Shared
pub mod Exclusive
pub mod Small
pub mod Laws
use buffer.Common.{ℕ, List, Bool, ◌==◌, length}
use buffer.Traits.{VTable}
use buffer.Bytes.{Repr}

-- A table that is borrowed, or owned by the reference.
pub data VTableRef (W : Type 0) : Type 0 where
  ref : VTable W → VTableRef W
  owned : VTable W → VTableRef W

abbrev pub as_ref : {W : Type 0} → VTableRef W → VTable W
as_ref (ref v) = v
as_ref (owned v) = v

-- `Value<Box<[u8]>, V>`
pub record BoxValue (W : Type 0) : Type 0 where
  pub bytes : List ℕ
  pub type_id : ℕ
  pub vtable : VTable W

-- The bytes are borrowed.
pub record ValueRef (W : Type 0) : Type 0 where
  pub bytes : List ℕ
  pub type_id : ℕ
  pub vtable : VTableRef W

pub record ValueMut (W : Type 0) : Type 0 where
  pub bytes : List ℕ
  pub type_id : ℕ
  pub vtable : VTableRef W
