-- ===== src/VecCopy/Laws/Collect.antt =====
-- Buffers filled from type-erased references.
use buffer.Value.Copy.{size}
use buffer.Common.{
  subst, suc, ◌<◌, length-append, ◌==◌, ℕ, ◌+◌, ◌*◌, ◌≤◌, ◌≡◌, refl, sym, ◌∙◌, List, [], ◌∷◌, ◌++◌,
  true, map, length, ok, ◌>>=◌, arith, ==-true, append-nil, append_assoc,
}
use buffer.Std.Platform.{Platform, isize_max, mul_usize_fits}
use buffer.Std.Vec.{vec}
use buffer.Std.Vec.Laws.{Capacity, extend_from_slice_lem, with_capacity_lem}
use buffer.Bytes.{Repr}
use buffer.Bytes.Laws.{encode_one}
use buffer.VecCopy.{VecCopy, with_items}
use buffer.VecCopy.Values.{iter_value_ref, push_value, extend, from_iter}
use buffer.VecCopy.Holds.{Holds, byte_length, append-Holds}
use buffer.VecCopy.Laws.Erased.{erase, iter_value_ref_refines}

module _ (p : Platform) {A : Type 0} (t : Repr A) where
  module _ {v : VecCopy} {xs : List A} (x : A) (h : Holds t v xs) where
    right_size : (length (t.to_bytes x) == v.element_size) ≡ true
    right_size =
        ==-true (length (t.to_bytes x)) v.element_size (t.length-to_bytes x ∙ sym h.same_size)

    right_type : (t.type_id == v.element_type_id) ≡ true
    right_type = ==-true t.type_id v.element_type_id (sym h.same_type)

    -- `push_value` of a reference to a value of the type of the buffer does what `push` of the
    -- value does, if the bytes are at most `isize::MAX`: it returns `Some`, and the value stands
    -- behind the others.
    pub push_value_refines :
        length v.items.items + t.size_of ≤ isize_max
        → (w : VecCopy) × (push_value p v (erase t x) ≡ ok (w, true)) × Holds t w (xs ++ x ∷ [])
    unfolding push_value
    push_value_refines small =
        let (most, e, c) =
          extend_from_slice_lem p v.items (t.to_bytes x) h.room (rw (t.length-to_bytes x) small) in
        (
          with_items v (vec (v.items.items ++ t.to_bytes x) most),
          rw (right_size, right_type, e),
          append-Holds (x ∷ []) most h (sym (encode_one t x)) c,
        )

  pub extend_refines :
      (ys : List A) {v : VecCopy} {xs : List A}
      → Holds t v xs
      → (length xs + length ys) * t.size_of ≤ isize_max
      → (w : VecCopy) × (extend p v (map (erase t) ys) ≡ ok w) × Holds t w (xs ++ ys)
  unfolding extend
  extend_refines [] {v} h small = (v, refl, rw append-nil h)
  extend_refines (y ∷ ys) {v} {xs} h small =
      let now : length v.items.items + t.size_of ≤ isize_max = rw (byte_length h) (grind arith) in
      let (most, e, c) =
        extend_from_slice_lem p v.items (t.to_bytes y) h.room (rw (t.length-to_bytes y) now) in
      let h' = append-Holds (y ∷ []) most h (sym (encode_one t y)) c in
      let later : (length (xs ++ y ∷ []) + length ys) * t.size_of ≤ isize_max =
        rw length-append (subst (λ n. n * t.size_of ≤ isize_max) (omega arith) small) in
      let (w, e', hw) = extend_refines ys h' later in
      (w, rw (right_size y h, right_type y h, e) e', rw append_assoc at hw)

  start :
      (x : A) (most : ℕ)
      → 0 < t.size_of
      → t.size_of ≤ most
      → most ≤ isize_max
      → Holds t
          (record {
            items = vec (t.to_bytes x) most;
            element_size = size (erase t x);
            element_type_id = t.type_id;
          })
          (x ∷ [])
  start x most pos le small = record {
    positive = pos;
    same_type = refl;
    same_size = t.length-to_bytes x;
    memory = sym (encode_one t x);
    room = record { enough = rw (t.length-to_bytes x) le; allocatable = small };
  }

  pub from_iter_refines :
      (hint : ℕ) (x : A) (xs : List A)
      → 0 < t.size_of
      → hint ≤ length xs
      → suc (length xs) * t.size_of ≤ isize_max
      → (w : VecCopy) × (from_iter p hint (map (erase t) (x ∷ xs)) ≡ ok w) × Holds t w (x ∷ xs)
  unfolding from_iter
  from_iter_refines hint x xs pos le small =
      let bytes : length (t.to_bytes x) * hint ≤ isize_max =
        rw (t.length-to_bytes x) (grind arith) in
      let fits = mul_usize_fits p (length (t.to_bytes x)) hint (omega arith) in
      let empty : Capacity 0 (length (t.to_bytes x) * hint) = record {
        enough = omega arith;
        allocatable = bytes;
      } in
      let one : length (t.to_bytes x) ≤ isize_max = rw (t.length-to_bytes x) (grind arith) in
      let (most, e, c) =
        extend_from_slice_lem p (vec [] (length (t.to_bytes x) * hint)) (t.to_bytes x) empty
          (omega arith) in
      let first = start x most pos (omega (arith, c.enough, t.length-to_bytes x)) c.allocatable in
      let (w, e', hw) = extend_refines xs first (omega arith) in
      (w, rw (fits, with_capacity_lem p (length (t.to_bytes x) * hint) bytes, e) e', hw)

  -- Collecting the references that `iter_value_ref` yields makes a buffer that holds the same
  -- values as the first, if that holds at least one, and for any size hint that is not too
  -- large.
  pub collect-iter_value_ref :
      (hint : ℕ) {v : VecCopy} (x : A) (xs : List A)
      → Holds t v (x ∷ xs)
      → hint ≤ length xs
      → (w : VecCopy) × ((iter_value_ref v >>= from_iter p hint) ≡ ok w) × Holds t w (x ∷ xs)
  collect-iter_value_ref hint {v} x xs h le =
      let small : suc (length xs) * t.size_of ≤ isize_max =
        omega (arith, byte_length h, h.room.enough, h.room.allocatable) in
      let (w, e, hw) = from_iter_refines hint x xs h.positive le small in
      (w, rw (iter_value_ref_refines t h) e, hw)
