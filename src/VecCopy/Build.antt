-- ===== src/VecCopy/Build.antt =====
-- The constructors of `VecCopy` (src/lib.rs).
use buffer.Common.{ℕ, List, not, ◌==◌, length, replicate, Outcome, ok, assert, ◌>>=◌, ◌>>◌}
use buffer.Std.Platform.{Platform, mul_usize}
use buffer.Std.Vec
use buffer.Std.Vec.{Vec, vec}
use buffer.Bytes.{Repr, encode}
use buffer.VecCopy.{VecCopy}

-- `with_type_from`
unfoldable pub with_type_from : VecCopy → VecCopy
with_type_from other = record {
  items = Vec.new;
  element_size = other.element_size;
  element_type_id = other.element_type_id;
}

module _ {A : Type 0} (t : Repr A) where
  unfoldable pub with_type_non_copy : Outcome VecCopy
  with_type_non_copy = do
    let element_size = t.size_of
    assert (not (element_size == 0))
    ok (record { items = Vec.new; element_size = element_size; element_type_id = t.type_id })

  unfoldable pub with_type : Outcome VecCopy
  with_type = with_type_non_copy

module _ (p : Platform) {A : Type 0} (t : Repr A) where
  unfoldable pub with_capacity_non_copy : ℕ → Outcome VecCopy
  with_capacity_non_copy n = do
    let element_size = t.size_of
    assert (not (element_size == 0))
    bytes ← mul_usize p n element_size
    items ← Vec.with_capacity p bytes
    ok (record { items = items; element_size = element_size; element_type_id = t.type_id })

  unfoldable pub with_capacity : ℕ → Outcome VecCopy
  with_capacity n = with_capacity_non_copy n

  -- `Vec::from_raw_parts` takes over the memory of the vector as bytes.
  unfoldable pub from_vec_non_copy : Vec A → Outcome VecCopy
  from_vec_non_copy v = do
    let element_size = t.size_of
    assert (not (element_size == 0))
    len_in_bytes ← mul_usize p (length v.items) element_size
    capacity_in_bytes ← mul_usize p v.capacity element_size
    bytes ← Vec.from_raw_parts (encode t v.items) len_in_bytes capacity_in_bytes
    ok (record { items = bytes; element_size = element_size; element_type_id = t.type_id })

  unfoldable pub from_vec : Vec A → Outcome VecCopy
  from_vec v = from_vec_non_copy v

  -- `vec![def; n]` has capacity `n`.
  unfoldable pub with_size : ℕ → A → Outcome VecCopy
  with_size n def = from_vec (vec (replicate n def) n)

  -- `Vec::with_capacity(slice.len())` is just filled.
  unfoldable pub from_slice : List A → Outcome VecCopy
  from_slice slice = from_vec (vec slice (length slice))

  unfoldable pub from_slice_non_copy : List A → Outcome VecCopy
  from_slice_non_copy slice = from_vec_non_copy (vec slice (length slice))
