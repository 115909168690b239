-- ===== src/VecCopy/Laws/Push.antt =====
-- `push` and `resize` on a buffer of typed values.
use native.Mathlib.Decide.{dec_lt}
use buffer.Common.{
  ℕ, zero, suc, ◌+◌, ◌-◌, ◌*◌, ◌≤◌, ◌<◌, ◌≡◌, ◌≢◌, refl, ap, sym, ◌∙◌, List, [], ◌∷◌, ◌++◌, true,
  false, length, take, replicate, ok, arith, ==-true, append-nil, append_assoc, length-append,
  leb-true, leb-false, take_all, length-take,
}
use buffer.Std.Platform.{Platform, isize_max, mul_usize, mul_usize_fits}
use buffer.Std.Vec.{Vec, vec, resize as vec_resize}
use buffer.Std.Vec.Laws.{extend_from_slice_lem, reserve_lem, truncate_lem}
use buffer.Bytes.{Repr}
use buffer.Bytes.Laws.{as_bytes_lem, encode_one, take-encode}
use buffer.VecCopy.{VecCopy, with_items, push_bytes, reserve_bytes}
use buffer.VecCopy.Update.{push, push_times, resize}
use buffer.VecCopy.Holds.{
  Holds, byte_length, len-Holds, check_ref-Holds, check_ref-mismatch, append-Holds,
}

module _ (p : Platform) {A : Type 0} (t : Repr A) where
  -- `push_bytes` of the bytes of a value.
  push_bytes-Holds :
      {v : VecCopy} {xs : List A} (x : A)
      → Holds t v xs
      → length v.items.items + t.size_of ≤ isize_max
      → (w : VecCopy) × (push_bytes p v (t.to_bytes x) ≡ ok (w, true)) × Holds t w (xs ++ x ∷ [])
  unfolding push_bytes
  push_bytes-Holds {v} {xs} x h small =
      let small' : length v.items.items + length (t.to_bytes x) ≤ isize_max =
        rw (t.length-to_bytes x) small in
      let (most, e, c) = extend_from_slice_lem p v.items (t.to_bytes x) h.room small' in
      let right_size =
        ==-true (length (t.to_bytes x)) v.element_size (t.length-to_bytes x ∙ sym h.same_size) in
      (
        with_items v (vec (v.items.items ++ t.to_bytes x) most),
        rw (right_size, e),
        append-Holds (x ∷ []) most h (sym (encode_one t x)) c,
      )

  -- `push` of a value to a buffer that holds `xs` of its type returns `Some`, and the buffer
  -- holds `xs` with the value behind, if its bytes and the new ones are at most `isize::MAX`.
  pub push_refines :
      {v : VecCopy} {xs : List A} (x : A)
      → Holds t v xs
      → length v.items.items + t.size_of ≤ isize_max
      → (w : VecCopy) × (push p t v x ≡ ok (w, true)) × Holds t w (xs ++ x ∷ [])
  unfolding push
  push_refines x h small =
      let (w, e, hw) = push_bytes-Holds x h small in
      (w, rw (check_ref-Holds h, as_bytes_lem t x, push) e, hw)

  pub push-mismatch :
      (v : VecCopy) (x : A) → t.type_id ≢ v.element_type_id → push p t v x ≡ ok (v, false)
  unfolding push
  push-mismatch v x d = rw (check_ref-mismatch t v d, push)

  pub snoc_byte_length :
      {v u : VecCopy} {xs : List A} (x : A)
      → Holds t v xs
      → Holds t u (xs ++ x ∷ [])
      → length u.items.items ≡ length v.items.items + t.size_of
  snoc_byte_length x h hu = rw (byte_length hu, byte_length h, length-append) (omega arith)

  -- `n` values pushed one after the other.
  push_times-Holds :
      (n : ℕ) {v : VecCopy} {xs : List A} (x : A)
      → Holds t v xs
      → length v.items.items + n * t.size_of ≤ isize_max
      → (w : VecCopy) × (push_times p t n v x ≡ ok w) × Holds t w (xs ++ replicate n x)
  unfolding push_times
  push_times-Holds zero {v} {xs} x h small = (v, refl, rw append-nil h)
  push_times-Holds (suc n) {v} {xs} x h small =
      let (u, e, hu) = push_refines x h (omega arith) in
      let small' : length u.items.items + n * t.size_of ≤ isize_max =
        omega (arith, snoc_byte_length x h hu) in
      let (w, e', hw) = push_times-Holds n x hu small' in (w, rw e e', rw append_assoc at hw)

  pub reserve_bytes-Holds :
      {v : VecCopy} {xs : List A} (n : ℕ)
      → Holds t v xs
      → length v.items.items + n ≤ isize_max
      → (w : VecCopy) × (reserve_bytes p v n ≡ ok w)
        × Holds t w xs
        × (w.items.items ≡ v.items.items)
  unfolding reserve_bytes
  reserve_bytes-Holds {v} n h small =
      let (room, e, c) = reserve_lem p v.items n h.room small in
      (
        with_items v (vec v.items.items room),
        rw e,
        record {
          positive = h.positive;
          same_type = h.same_type;
          same_size = h.same_size;
          memory = h.memory;
          room = record { enough = omega (arith, c.enough); allocatable = c.allocatable };
        },
        refl,
      )

  resize_grow :
      (n : ℕ) {v : VecCopy} {xs : List A} (x : A)
      → Holds t v xs
      → length xs ≤ n
      → n * t.size_of ≤ isize_max
      → (w : VecCopy) × (resize p t v n x ≡ ok (w, true))
        × Holds t w (xs ++ replicate (n - length xs) x)
  unfolding resize
  resize_grow n {v} {xs} x h le small =
      let diff = n - length xs in
      let total : length v.items.items + diff * t.size_of ≤ isize_max =
        grind (arith, byte_length h) in
      let (u, e, hu, same) = reserve_bytes-Holds (diff * t.size_of) h total in
      let (w, e', hw) = push_times-Holds diff x hu (rw same total) in
      let fits = mul_usize_fits p diff t.size_of (omega arith) in
      (w, rw (check_ref-Holds h, resize, len-Holds p h, leb-true _ _ le, fits, e, e'), hw)

  -- The first `n` values, when the bytes of the others are cut off.
  pub truncate-Holds :
      (n : ℕ) {v : VecCopy} {xs : List A}
      → Holds t v xs
      → n < length xs
      → (d : Vec ℕ) × (vec_resize p v.items (n * t.size_of) 0 ≡ ok d)
        × (mul_usize p n t.size_of ≡ ok (n * t.size_of))
        × Holds t (with_items v d) (take n xs)
  truncate-Holds n {v} {xs} h lt =
      let shorter : n * t.size_of ≤ length v.items.items = rw (byte_length h) (grind arith) in
      (
        vec (take (n * t.size_of) v.items.items) v.items.capacity,
        truncate_lem p v.items (n * t.size_of) 0 shorter,
        mul_usize_fits p n t.size_of (omega (arith, h.room.enough, h.room.allocatable)),
        record {
          positive = h.positive;
          same_type = h.same_type;
          same_size = h.same_size;
          memory = ap (take (n * t.size_of)) h.memory ∙ take-encode t n xs;
          room = record {
            enough = omega (arith, length-take (n * t.size_of) v.items.items, h.room.enough);
            allocatable = h.room.allocatable;
          };
        },
      )

  resize_shrink :
      (n : ℕ) {v : VecCopy} {xs : List A} (x : A)
      → Holds t v xs
      → n < length xs
      → (w : VecCopy) × (resize p t v n x ≡ ok (w, true)) × Holds t w (take n xs)
  unfolding resize
  resize_shrink n {v} {xs} x h lt =
      let (d, e, fits, hw) = truncate-Holds n h lt in
      (with_items v d, rw (check_ref-Holds h, resize, len-Holds p h, leb-false _ _ lt, fits, e), hw)

  -- `resize` to `n` elements, where these take at most `isize::MAX` bytes, returns `Some`, and a
  -- buffer that held `xs` holds the first `n` of them, followed by as many copies of the value
  -- as are missing.
  pub resize_refines :
      (n : ℕ) {v : VecCopy} {xs : List A} (x : A)
      → Holds t v xs
      → n * t.size_of ≤ isize_max
      → (w : VecCopy) × (resize p t v n x ≡ ok (w, true))
        × Holds t w (take n xs ++ replicate (n - length xs) x)
  resize_refines n {v} {xs} x h small = elim (dec_lt n (length xs)) [
    | yes lt ↦
        let none_new : n - length xs ≡ 0 = omega arith in
        let (w, e, hw) = resize_shrink n x h lt in (w, e, rw (none_new, append-nil) hw)
    | no ge ↦
        let (w, e, hw) = resize_grow n x h (omega arith) small in
        (w, e, rw (take_all xs n (omega arith)) hw)
  ]
