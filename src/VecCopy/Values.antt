-- ===== src/VecCopy/Values.antt =====
-- The value interface of `VecCopy` (src/lib.rs): elements behind type-erased references.
use buffer.Common.{
  ℕ, List, [], ◌∷◌, Bool, true, false, map, ◌==◌, if◌then◌else◌, Outcome, ok, panic, assert, ◌>>=◌,
  ◌>>◌,
}
use buffer.Std.Platform.{Platform, mul_usize}
use buffer.Std.Vec
use buffer.Std.Vec.{vec}
use buffer.Bytes.{RefMut}
use buffer.Value.Copy.{
  CopyValueRef, CopyValueMut, size, value_type_id, from_raw_parts, mut_from_raw_parts,
}
use buffer.VecCopy.{
  VecCopy, with_items, get_bytes, get_bytes_mut, byte_chunks, byte_chunks_mut, debug_assert_index,
}

abbrev bytes_of : CopyValueMut → List ℕ
bytes_of w = w.bytes

unfoldable pub iter_value_ref : VecCopy → Outcome (List CopyValueRef)
iter_value_ref v = do
  cs ← byte_chunks v
  ok (map (λ bytes. from_raw_parts bytes v.element_type_id) cs)

unfoldable pub iter_value_mut : VecCopy → Outcome (RefMut (List CopyValueMut) VecCopy)
iter_value_mut v = do
  cs ← byte_chunks_mut v
  ok (record {
    value = map (λ bytes. mut_from_raw_parts bytes v.element_type_id) cs.value;
    put = λ ws. cs.put (map bytes_of ws);
  })

module _ (p : Platform) where
  unfoldable pub value_ref : VecCopy → ℕ → Outcome CopyValueRef
  value_ref v i = do
    debug_assert_index p v i
    bytes ← get_bytes p v i
    ok (from_raw_parts bytes v.element_type_id)

  unfoldable pub value_mut : VecCopy → ℕ → Outcome (RefMut CopyValueMut VecCopy)
  value_mut v i = do
    debug_assert_index p v i
    let type_id = v.element_type_id
    bytes ← get_bytes_mut p v i
    ok (record { value = mut_from_raw_parts bytes.value type_id; put = λ w. bytes.put w.bytes })

  unfoldable pub push_value : VecCopy → CopyValueRef → Outcome (VecCopy × Bool)
  push_value v value = do
    assert (size value == v.element_size)
    if value_type_id value == v.element_type_id
        then (do d ← Vec.extend_from_slice p v.items value.bytes; ok (with_items v d, true))
        else ok (v, false)

  -- `Extend::extend`
  unfoldable pub extend : VecCopy → List CopyValueRef → Outcome VecCopy
  extend v [] = ok v
  extend v (value ∷ iter) = do
    assert (size value == v.element_size)
    assert (value_type_id value == v.element_type_id)
    d ← Vec.extend_from_slice p v.items value.bytes
    extend (with_items v d) iter

  -- `FromIterator::from_iter`; `hint` is the lower bound of the iterator's size hint, once the first
  -- value is taken.
  unfoldable pub from_iter : ℕ → List CopyValueRef → Outcome VecCopy
  from_iter hint [] = panic
  from_iter hint (next ∷ iter) = do
    cap ← mul_usize p (size next) hint
    d ← Vec.with_capacity p cap
    d' ← Vec.extend_from_slice p d next.bytes
    let buf : VecCopy = record {
      items = d';
      element_size = size next;
      element_type_id = value_type_id next;
    }
    extend buf iter
