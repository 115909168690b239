-- ===== src/VecCopy/Laws/Build.antt =====
-- The constructors of `VecCopy`, and the way back into a vector.
use buffer.Common.{
  ap, ◌∙◌, leb-true, ◌/◌, ◌%◌, false, sym, ◌==◌, ℕ, ◌*◌, ◌≤◌, ◌<◌, ◌≡◌, refl, List, [], some,
  length, replicate, ok, ◌>>=◌, arith, length-replicate, ==-true, ==-false, take_all,
}
use buffer.Std.Platform.{Platform, isize_max, mul_usize_fits}
use buffer.Std.Vec.{Vec, vec}
use buffer.Std.Vec.Laws.{Capacity, resize_lem, with_capacity_lem, from_raw_parts_lem}
use buffer.Bytes.{from_raw_parts, Repr, encode}
use buffer.Bytes.Laws.{length-encode, encode-nil}
use buffer.VecCopy.{VecCopy}
use buffer.VecCopy.Build.{
  with_type, with_type_non_copy, with_capacity, with_capacity_non_copy, from_vec, from_vec_non_copy,
  with_size, from_slice,
}
use buffer.VecCopy.Update.{copy_from_slice}
use buffer.VecCopy.Convert.{Reinterpret, into_vec}
use buffer.Std.Slice.{copy_from_slice as slice_copy}
use native.Mathlib.Nat.{le_of_eq, mul-mod_left, mul-div_left}
use buffer.VecCopy.Holds.{Holds}
use buffer.VecCopy.Laws.Read.{into_vec_refines}

module _ (p : Platform) {A : Type 0} (t : Repr A) where
  module _ (positive : 0 < t.size_of) where
    sized : (t.size_of == 0) ≡ false
    sized = ==-false t.size_of 0 (omega arith)

    pub with_type_refines :
        (v : VecCopy) × (with_type t ≡ ok v) × Holds t v [] × (v.items.capacity ≡ 0)
    unfolding with_type with_type_non_copy
    with_type_refines = (
      record { items = vec [] 0; element_size = t.size_of; element_type_id = t.type_id },
      rw sized,
      record {
        positive = positive;
        same_type = refl;
        same_size = refl;
        memory = rw (encode-nil t);
        room = omega arith;
      },
      refl,
    )

    pub from_vec_refines :
        (ys : Vec A)
        → length ys.items ≤ ys.capacity
        → ys.capacity * t.size_of ≤ isize_max
        → (v : VecCopy) × (from_vec p t ys ≡ ok v)
          × Holds t v ys.items
          × (v.items.capacity ≡ ys.capacity * t.size_of)
    unfolding from_vec from_vec_non_copy
    from_vec_refines ys le small =
        let within : length ys.items * t.size_of ≤ ys.capacity * t.size_of = grind arith in
        let len_fits = mul_usize_fits p (length ys.items) t.size_of (omega arith) in
        let room_fits = mul_usize_fits p ys.capacity t.size_of (omega arith) in
        let raw =
          from_raw_parts_lem (encode t ys.items) _ (ys.capacity * t.size_of)
            (sym (length-encode t ys.items)) within in
        (
          record {
            items = vec (encode t ys.items) (ys.capacity * t.size_of);
            element_size = t.size_of;
            element_type_id = t.type_id;
          },
          rw (sized, from_vec_non_copy, len_fits, room_fits, raw),
          record {
            positive = positive;
            same_type = refl;
            same_size = refl;
            memory = refl;
            room = record { enough = rw (length-encode t ys.items) within; allocatable = small };
          },
          refl,
        )

    pub from_slice_refines :
        (xs : List A)
        → length xs * t.size_of ≤ isize_max
        → (v : VecCopy) × (from_slice p t xs ≡ ok v) × Holds t v xs
    unfolding from_slice
    from_slice_refines xs small =
        let (v, e, h, _) = from_vec_refines (vec xs (length xs)) (omega arith) small in (v, e, h)

    pub with_size_refines :
        (n : ℕ) (x : A)
        → n * t.size_of ≤ isize_max
        → (v : VecCopy) × (with_size p t n x ≡ ok v) × Holds t v (replicate n x)
    unfolding with_size
    with_size_refines n x small =
        let (v, e, h, _) =
          from_vec_refines (vec (replicate n x) n) (omega (arith, length-replicate n x)) small in
        (v, e, h)

    pub with_capacity_refines :
        (n : ℕ)
        → n * t.size_of ≤ isize_max
        → (v : VecCopy) × (with_capacity p t n ≡ ok v)
          × Holds t v []
          × (v.items.capacity ≡ n * t.size_of)
    unfolding with_capacity with_capacity_non_copy
    with_capacity_refines n small =
        let fits = mul_usize_fits p n t.size_of (omega arith) in
        (
          record {
            items = vec [] (n * t.size_of);
            element_size = t.size_of;
            element_type_id = t.type_id;
          },
          rw (sized, with_capacity_non_copy, fits, with_capacity_lem p (n * t.size_of) small),
          record {
            positive = positive;
            same_type = refl;
            same_size = refl;
            memory = rw (encode-nil t);
            room = record { enough = omega arith; allocatable = small };
          },
          refl,
        )

    -- `copy_from_slice` leaves a buffer that holds exactly the slice, at the type of the slice,
    -- whatever bytes and type the buffer had, if elements are not zero-sized, its allocation was
    -- in order and the slice takes at most `isize::MAX` bytes.
    pub copy_from_slice_refines :
        (v : VecCopy) (xs : List A)
        → Capacity (length v.items.items) v.items.capacity
        → length xs * t.size_of ≤ isize_max
        → (w : VecCopy) × (copy_from_slice p t v xs ≡ ok w) × Holds t w xs
    unfolding copy_from_slice from_raw_parts slice_copy
    copy_from_slice_refines v xs c small =
        let fits = mul_usize_fits p (length xs) t.size_of (omega arith) in
        let (d, e, same, room) = resize_lem p v.items (length xs * t.size_of) 0 c small in
        let bytes = length-encode t xs in
        let within =
          leb-true (length xs * t.size_of) (length (encode t xs)) (le_of_eq (sym bytes)) in
        let whole = take_all (encode t xs) (length xs * t.size_of) (le_of_eq bytes) in
        let lengths = ==-true (length (encode t xs)) (length d.items) (bytes ∙ sym same) in
        (
          record {
            items = vec (encode t xs) d.capacity;
            element_size = t.size_of;
            element_type_id = t.type_id;
          },
          rw (sized, copy_from_slice, fits, within, whole, e, lengths),
          record {
            positive = positive;
            same_type = refl;
            same_size = refl;
            memory = refl;
            room = rw bytes room;
          },
        )

    -- `into_vec` after `from_vec` gives back the same vector, elements and capacity, for
    -- elements that are not zero-sized, a vector whose length is within its capacity and whose
    -- capacity takes at most `isize::MAX` bytes, and a `reinterpret_vec` as assumed.
    pub into_vec-from_vec :
        (r : Reinterpret t) (ys : Vec A)
        → length ys.items ≤ ys.capacity
        → ys.capacity * t.size_of ≤ isize_max
        → (from_vec p t ys >>= into_vec r) ≡ ok (some ys)
    into_vec-from_vec r ys le small =
        let (v, e, h, room) = from_vec_refines ys le small in
        let whole : v.items.capacity % t.size_of ≡ 0 =
          rw room (mul-mod_left ys.capacity t.size_of) in
        let back : v.items.capacity / t.size_of ≡ ys.capacity =
          rw room (mul-div_left ys.capacity positive) in
        rw e (into_vec_refines p t h r whole ∙ ap (λ k. ok (some (vec ys.items k))) back)
