-- ===== src/VecCopy/Laws/Erased.antt =====
-- Elements as bytes and behind type-erased references.
use buffer.VecCopy.Laws.Read.{rewrite-Holds}
use mathlib.Core.List.{map-map}
use buffer.Common.{
  length-set, set, ◌++◌, leb-true, ==-true, ==-false, get_elem?-lt, ℕ, ◌+◌, ◌-◌, ◌*◌, ◌≤◌, ◌<◌, ◌≡◌,
  ◌≢◌, refl, ap, List, none, some, map, length, get_elem?, take, drop, ok, arith,
}
use buffer.Std.Platform.{
  add_usize, mul_usize, Platform, isize_max, usize_mod, mul_usize_fits, add_usize_fits,
}
use buffer.Std.Slice.{chunks, index_range, chunks_exact}
use buffer.Bytes.{encode, RefMut, write_at, Repr}
use buffer.Bytes.Laws.{encode-set, as_bytes_lem, piece-encode, chunks-encode, from_bytes_lem}
use buffer.Value.Copy.{CopyValueRef, from_raw_parts, is, downcast_with, downcast, new}
use buffer.VecCopy.{
  vec, with_items, get_bytes_mut, VecCopy, debug_assert_index, get_bytes, byte_chunks,
}
use buffer.VecCopy.Values.{value_ref, iter_value_ref}
use buffer.VecCopy.Holds.{Holds, byte_length, div_length, len-Holds}

module _ {A : Type 0} (t : Repr A) where
  -- The reference to a value.
  abbrev pub erase : A → CopyValueRef
  erase x = from_raw_parts (t.to_bytes x) t.type_id

  pub new_lem : (x : A) → new t x ≡ ok (erase x)
  unfolding new
  new_lem x = rw (as_bytes_lem t x, new)

  -- `downcast` at the type of a value, of a reference to it, is that value.
  pub downcast-erase : (x : A) → downcast t (erase x) ≡ ok (some x)
  unfolding downcast downcast_with is
  downcast-erase x = rw (==-true t.type_id t.type_id refl, from_bytes_lem t x)

  -- and nothing at any other type.
  pub downcast-mismatch : (r : CopyValueRef) → r.type_id ≢ t.type_id → downcast t r ≡ ok none
  unfolding downcast downcast_with is
  downcast-mismatch r d = rw (==-false r.type_id t.type_id d)

  module _ {v : VecCopy} {xs : List A} (h : Holds t v xs) where
    pub byte_chunks_refines : byte_chunks v ≡ ok (map t.to_bytes xs)
    unfolding byte_chunks chunks_exact
    byte_chunks_refines =
        let sized = ==-false v.element_size 0 (omega (arith, h.same_size, h.positive)) in
        rw (
          sized,
          div_length h,
          h.same_size,
          ap (chunks t.size_of (length xs)) h.memory,
          chunks-encode t xs,
        )

    pub iter_value_ref_refines : iter_value_ref v ≡ ok (map erase xs)
    unfolding iter_value_ref
    iter_value_ref_refines =
        rw (byte_chunks_refines, iter_value_ref, h.same_type) (ap ok (map-map _ t.to_bytes xs))

module _ (p : Platform) {A : Type 0} (t : Repr A) where
  module _ {v : VecCopy} {xs : List A} (h : Holds t v xs) where
    pub debug_assert_index_lem : (i : ℕ) → i < length xs → debug_assert_index p v i ≡ ok tt
    unfolding debug_assert_index
    debug_assert_index_lem i lt = ground (arith, len-Holds p h)

    -- Elements are at least a byte long, so there are fewer of them than bytes.
    index_small : (i : ℕ) → i < length xs → i < isize_max
    index_small i lt =
        let bytes : length xs ≤ length v.items.items =
          rw (byte_length h) (grind (arith, h.positive)) in
        omega (arith, h.room.enough, h.room.allocatable)

    -- The piece of an element: no multiplication wraps, in either build.
    element_range :
        (i : ℕ) {x : A}
        → get_elem? xs i ≡ some x
        → (mul_usize p i v.element_size ≡ ok (i * v.element_size))
          × (add_usize p i 1 ≡ ok (i + 1))
          × (mul_usize p (i + 1) v.element_size ≡ ok ((i + 1) * v.element_size))
          × (index_range v.items.items (i * v.element_size) ((i + 1) * v.element_size)
              ≡ ok (t.to_bytes x))
    unfolding index_range
    element_range i {x} e =
        let lt = get_elem?-lt xs i e in
        let end : (i + 1) * v.element_size ≤ length v.items.items =
          rw (h.same_size, byte_length h) (grind arith) in
        let start : i * v.element_size ≤ (i + 1) * v.element_size = omega arith in
        let limit : length v.items.items < usize_mod =
          omega (arith, h.room.enough, h.room.allocatable) in
        let small : i < isize_max = index_small i lt in
        let width : (i + 1) * v.element_size - i * v.element_size ≡ t.size_of =
          rw h.same_size (omega arith) in
        let piece : take t.size_of (drop (i * v.element_size) v.items.items) ≡ t.to_bytes x =
          rw (h.same_size, h.memory) (piece-encode t xs i e) in
        (
          mul_usize_fits p i v.element_size (omega arith),
          add_usize_fits p i 1 (omega arith),
          mul_usize_fits p (i + 1) v.element_size (omega arith),
          rw (
            leb-true (i * v.element_size) ((i + 1) * v.element_size) start,
            leb-true ((i + 1) * v.element_size) (length v.items.items) end,
            width,
            piece,
          ),
        )

    -- `get_bytes(i)`, where a buffer holds `xs` and `x` is the `i`th of them, is the
    -- representation of `x`.
    pub get_bytes_refines :
        (i : ℕ) {x : A} → get_elem? xs i ≡ some x → get_bytes p v i ≡ ok (t.to_bytes x)
    unfolding get_bytes
    get_bytes_refines i e =
        let (from, next, to, piece) = element_range i e in
        rw (debug_assert_index_lem i (get_elem?-lt xs i e), get_bytes, from, next, to, piece)

    written-encode :
        (i : ℕ)
        → i < length xs
        → (y : A)
        → take (i * v.element_size) v.items.items
            ++ (t.to_bytes y ++ drop ((i + 1) * v.element_size) v.items.items)
          ≡ encode t (set xs i y)
    unfolding write_at
    written-encode i lt y =
        let end : (i + 1) * t.size_of ≡ i * t.size_of + t.size_of = omega arith in
        rw (h.same_size, h.memory, end) (encode-set t xs i y lt)

    -- `get_bytes_mut(i)` borrows the same, and a write of the representation of `y` puts `y` there.
    pub get_bytes_mut_refines :
        (i : ℕ) {x : A}
        → get_elem? xs i ≡ some x
        → (r : RefMut (List ℕ) VecCopy) × (get_bytes_mut p v i ≡ ok r)
          × (r.value ≡ t.to_bytes x)
          × ((y : A) → Holds t (r.put (t.to_bytes y)) (set xs i y))
    unfolding get_bytes_mut
    get_bytes_mut_refines i {x} e =
        let (from, next, to, piece) = element_range i e in
        let lt = get_elem?-lt xs i e in
        (
          record {
            value = t.to_bytes x;
            put = λ bs. with_items v (
                vec
                  (take (i * v.element_size) v.items.items
                    ++ (bs ++ drop ((i + 1) * v.element_size) v.items.items))
                  v.items.capacity);
          },
          rw (debug_assert_index_lem i lt, get_bytes_mut, from, next, to, piece),
          refl,
          λ y. rewrite-Holds p t (set xs i y) h (length-set xs i y) (written-encode i lt y),
        )

    pub value_ref_refines :
        (i : ℕ) {x : A} → get_elem? xs i ≡ some x → value_ref p v i ≡ ok (erase t x)
    unfolding value_ref
    value_ref_refines i {x} e = rw (
      debug_assert_index_lem i (get_elem?-lt xs i e),
      value_ref,
      get_bytes_refines i e,
      h.same_type,
    )
