-- ===== src/VecCopy.antt =====
-- `VecCopy` of src/lib.rs: a buffer of plain data whose element type is known only at run time.
-- This file has the structure, its type check, and the access to its bytes.
pub mod Build
pub mod Access
pub mod Update
pub mod Convert
pub mod Values
pub mod Cast
pub mod Display
pub mod Equality
pub mod Serde
pub mod Holds
pub mod Laws
use buffer.Common.{
  ℕ, ◌-◌, ◌+◌, ◌%◌, ◌/◌, List, ◌++◌, Bool, true, false, Option, none, some, not, ◌==◌, ltb,
  if◌then◌else◌, length, take, drop, Outcome, ok, panic, assert, ◌>>=◌, ◌>>◌,
}
use buffer.Common.Effects.{Eff}
use buffer.Std.Platform.{Platform, mul_usize, add_usize}
use buffer.Std.Vec
use buffer.Std.Vec.{Vec, vec}
use buffer.Std.Slice.{
  index_range, chunks_exact, rotate_left as slice_rotate_left, rotate_right as slice_rotate_right,
  concat,
}
use buffer.Bytes.{Repr, RefMut}

-- A byte is a number; bytes are moved and never computed with.
pub record VecCopy : Type 0 where
  pub items : Vec ℕ
  pub element_size : ℕ
  pub element_type_id : ℕ

-- The same buffer over other bytes.
abbrev pub with_items : VecCopy → Vec ℕ → VecCopy
with_items v d = record v { items = d }

-- `self.check_ref::<T>()`; `check` and `check_mut` are the same test on an owned buffer and on a
-- mutable borrow.
unfoldable pub check_ref : {A : Type 0} → Repr A → VecCopy → Option VecCopy
check_ref t v = if not (t.type_id == v.element_type_id) then none else some v

unfoldable pub check : {A : Type 0} → Repr A → VecCopy → Option VecCopy
check t v = if not (t.type_id == v.element_type_id) then none else some v

unfoldable pub check_mut : {A : Type 0} → Repr A → VecCopy → Option VecCopy
check_mut t v = if not (t.type_id == v.element_type_id) then none else some v

abbrev pub element_type_id : VecCopy → ℕ
element_type_id v = v.element_type_id

abbrev pub element_size : VecCopy → ℕ
element_size v = v.element_size

abbrev pub byte_capacity : VecCopy → ℕ
byte_capacity v = v.items.capacity

unfoldable pub is_empty : VecCopy → Bool
is_empty v = length v.items.items == 0

abbrev pub as_bytes : VecCopy → List ℕ
as_bytes v = v.items.items

-- `as_bytes_mut` (unsafe): any bytes of the same number may be written.
abbrev pub as_bytes_mut : VecCopy → RefMut (List ℕ) VecCopy
as_bytes_mut v = record {
  value = v.items.items;
  put = λ bs. with_items v (vec bs v.items.capacity);
}

-- `clear` keeps the type and the allocation.
unfoldable pub clear : VecCopy → VecCopy
clear v = with_items v (Vec.clear v.items)

-- `clone_with`: the closure makes the new bytes.
unfoldable pub clone_with : {W : Type 0} → VecCopy → (List ℕ → Eff W (Vec ℕ)) → Eff W VecCopy
clone_with v clone w = do (d, w') ← clone v.items.items w; ok (with_items v d, w')

-- `a / b` and `a % b` of `usize` panic at zero.
abbrev pub div_usize : ℕ → ℕ → Outcome ℕ
div_usize a b = if b == 0 then panic else ok (a / b)

abbrev pub rem_usize : ℕ → ℕ → Outcome ℕ
rem_usize a b = if b == 0 then panic else ok (a % b)

unfoldable pub byte_chunks : VecCopy → Outcome (List (List ℕ))
byte_chunks v = chunks_exact v.items.items v.element_size

-- `byte_chunks_mut` (unsafe): what is behind the last whole piece stays.
unfoldable pub byte_chunks_mut : VecCopy → Outcome (RefMut (List (List ℕ)) VecCopy)
byte_chunks_mut v = do
  cs ← chunks_exact v.items.items v.element_size
  let tail = drop (length (concat cs)) v.items.items
  ok (record { value = cs; put = λ ds. with_items v (vec (concat ds ++ tail) v.items.capacity) })

module _ (p : Platform) where
  unfoldable pub len : VecCopy → Outcome ℕ
  len v = do
    if p.debug
        then (do r ← rem_usize (length v.items.items) v.element_size; assert (r == 0))
        else ok tt
    div_usize (length v.items.items) v.element_size

  unfoldable pub reserve_bytes : VecCopy → ℕ → Outcome VecCopy
  reserve_bytes v additional = do d ← Vec.reserve p v.items additional; ok (with_items v d)

  -- `debug_assert!(i < self.len())`
  unfoldable pub debug_assert_index : VecCopy → ℕ → Outcome (Unit {0})
  debug_assert_index v i = if p.debug then (do n ← len v; assert (ltb i n)) else ok tt

  unfoldable pub get_bytes : VecCopy → ℕ → Outcome (List ℕ)
  get_bytes v i = do
    debug_assert_index v i
    a ← mul_usize p i v.element_size
    j ← add_usize p i 1
    b ← mul_usize p j v.element_size
    index_range v.items.items a b

  -- `get_bytes_mut` (unsafe): the owner is the buffer with that piece replaced.
  unfoldable pub get_bytes_mut : VecCopy → ℕ → Outcome (RefMut (List ℕ) VecCopy)
  get_bytes_mut v i = do
    debug_assert_index v i
    a ← mul_usize p i v.element_size
    j ← add_usize p i 1
    b ← mul_usize p j v.element_size
    piece ← index_range v.items.items a b
    ok (record {
      value = piece;
      put = λ bs.
          with_items v
            (vec (take a v.items.items ++ (bs ++ drop b v.items.items)) v.items.capacity);
    })

  -- The result `true` stands for `Some(self)`, and `false` for `None`.
  unfoldable pub push_bytes : VecCopy → List ℕ → Outcome (VecCopy × Bool)
  push_bytes v bytes =
      if length bytes == v.element_size
      then (do d ← Vec.extend_from_slice p v.items bytes; ok (with_items v d, true))
      else ok (v, false)

  unfoldable pub extend_bytes : VecCopy → List ℕ → Outcome (VecCopy × Bool)
  extend_bytes v bytes = do
    r ← rem_usize (length bytes) v.element_size
    if r == 0
        then (do d ← Vec.extend_from_slice p v.items bytes; ok (with_items v d, true))
        else ok (v, false)

  -- Also the vector that the bytes are moved from, after it.
  unfoldable pub append_bytes : VecCopy → Vec ℕ → Outcome (VecCopy × Vec ℕ × Bool)
  append_bytes v bytes = do
    r ← rem_usize (length bytes.items) v.element_size
    if r == 0
        then (do (d, rest) ← Vec.append p v.items bytes; ok (with_items v d, rest, true))
        else ok (v, bytes, false)

  -- `append(&mut self, buf: &mut VecCopy)`: both buffers after it.
  unfoldable pub append : VecCopy → VecCopy → Outcome (VecCopy × VecCopy × Bool)
  append v buf =
      if buf.element_type_id == v.element_type_id
      then (do
        (d, rest) ← Vec.append p v.items buf.items
        ok (with_items v d, with_items buf rest, true))
      else ok (v, buf, false)

  unfoldable pub rotate_left : VecCopy → ℕ → Outcome VecCopy
  rotate_left v mid = do
    n ← mul_usize p mid v.element_size
    bs ← slice_rotate_left v.items.items n
    ok (with_items v (vec bs v.items.capacity))

  unfoldable pub rotate_right : VecCopy → ℕ → Outcome VecCopy
  rotate_right v k = do
    n ← mul_usize p k v.element_size
    bs ← slice_rotate_right v.items.items n
    ok (with_items v (vec bs v.items.capacity))
