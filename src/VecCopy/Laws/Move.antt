-- ===== src/VecCopy/Laws/Move.antt =====
-- The operations that move whole elements about: `append` and the rotations.
use buffer.VecCopy.Access.{get}
use native.Mathlib.Nat.{mul-sub, mul_comm}
use buffer.Bytes.Laws.{encode-nil, encode-append, take-encode, drop-encode}
use buffer.Common.{
  get_elem?-drop-append, ap, append-nil, sym, ◌^◌, ◌∙◌, ==-true, false, leb-true, ℕ, ◌+◌, ◌-◌, ◌*◌,
  ◌≤◌, ◌<◌, ◌≡◌, List, [], ◌++◌, true, length, take, drop, ok, panic, arith,
}
use buffer.Std.Platform.{Platform, isize_max, mul_usize, mul_usize_fits}
use buffer.Std.Vec.{vec, append as vec_append}
use buffer.Std.Slice.Laws.{length-drop-take}
use buffer.Std.Slice.{rotate_left as slice_rotate_left, rotate_right as slice_rotate_right}
use buffer.Std.Vec.Laws.{extend_from_slice_lem}
use buffer.Bytes.{Repr, encode}
use buffer.VecCopy.{VecCopy, with_items, append, rotate_left, rotate_right}
use buffer.VecCopy.Holds.{Holds, byte_length, append-Holds}
use buffer.VecCopy.Laws.Read.{or_panic, get-eq-get_elem?, rewrite-Holds}

sub_mul : (m n k : ℕ) → (m - n) * k ≡ m * k - n * k
sub_mul m n k = rw (mul_comm (m - n) k, mul-sub k m n, mul_comm k m, mul_comm k n)

module _ (p : Platform) {A : Type 0} (t : Repr A) where
  -- `append` of a buffer that holds `ys` to one that holds `xs` of the same type returns `Some`;
  -- the first then holds `xs` and behind them `ys`, and the second holds nothing, if all bytes
  -- are at most `isize::MAX`.
  pub append_refines :
      {v u : VecCopy} {xs ys : List A}
      → Holds t v xs
      → Holds t u ys
      → length v.items.items + length u.items.items ≤ isize_max
      → (w u' : VecCopy) × (append p v u ≡ ok (w, u', true)) × Holds t w (xs ++ ys) × Holds t u' []
  unfolding append vec_append
  append_refines {v} {u} {xs} {ys} h k small =
      let (most, e, c) = extend_from_slice_lem p v.items u.items.items h.room small in
      let same = ==-true u.element_type_id v.element_type_id (k.same_type ∙ sym h.same_type) in
      (
        with_items v (vec (v.items.items ++ u.items.items) most),
        with_items u (vec [] u.items.capacity),
        rw (same, e),
        append-Holds ys most h k.memory c,
        record {
          positive = k.positive;
          same_type = k.same_type;
          same_size = k.same_size;
          memory = rw (encode-nil t);
          room = record { enough = omega arith; allocatable = k.room.allocatable };
        },
      )

  -- The bytes from element `n` on, then those before it.
  rotated :
      (n : ℕ) {v : VecCopy} {xs : List A}
      → Holds t v xs
      → drop (n * v.element_size) v.items.items ++ take (n * v.element_size) v.items.items
        ≡ encode t (drop n xs ++ take n xs)
  rotated n {v} {xs} h =
      rw (h.same_size, h.memory, drop-encode t n xs, take-encode t n xs, encode-append t)

  byte_index :
      (n : ℕ) {v : VecCopy} {xs : List A}
      → Holds t v xs
      → n ≤ length xs
      → n * v.element_size ≤ length v.items.items
  byte_index n h le = rw (h.same_size, byte_length h) (grind arith)

  byte_index_fits :
      (n : ℕ) {v : VecCopy} {xs : List A}
      → Holds t v xs
      → n ≤ length xs
      → mul_usize p n v.element_size ≡ ok (n * v.element_size)
  byte_index_fits n {v} h le =
      mul_usize_fits p n v.element_size
        (omega (arith, byte_index n h le, h.room.enough, h.room.allocatable))

  -- `rotate_left(mid)`, for `mid` at most the number of elements, moves the first `mid` of them
  -- behind the others.
  pub rotate_left_refines :
      (mid : ℕ) {v : VecCopy} {xs : List A}
      → Holds t v xs
      → mid ≤ length xs
      → (w : VecCopy) × (rotate_left p v mid ≡ ok w) × Holds t w (drop mid xs ++ take mid xs)
  unfolding rotate_left slice_rotate_left
  rotate_left_refines mid {v} {xs} h le = (
    with_items v (
        vec (drop (mid * v.element_size) v.items.items ++ take (mid * v.element_size) v.items.items)
          v.items.capacity),
    rw (
      byte_index_fits mid h le,
      leb-true (mid * v.element_size) (length v.items.items) (byte_index mid h le),
    ),
    rewrite-Holds p t (drop mid xs ++ take mid xs) h (length-drop-take mid xs) (rotated mid h),
  )

  pub rotate_right_refines :
      (k : ℕ) {v : VecCopy} {xs : List A}
      → Holds t v xs
      → k ≤ length xs
      → (w : VecCopy) × (rotate_right p v k ≡ ok w)
        × Holds t w (drop (length xs - k) xs ++ take (length xs - k) xs)
  unfolding rotate_right slice_rotate_right
  rotate_right_refines k {v} {xs} h le =
      let mid = length xs - k in
      let split : length v.items.items - k * v.element_size ≡ mid * v.element_size =
        rw (h.same_size, byte_length h) (sym (sub_mul (length xs) k t.size_of)) in
      (
        with_items v (
            vec
              (drop (mid * v.element_size) v.items.items
                ++ take (mid * v.element_size) v.items.items)
              v.items.capacity),
        rw (
          byte_index_fits k h le,
          leb-true (k * v.element_size) (length v.items.items) (byte_index k h le),
          split,
        ),
        rewrite-Holds p t (drop mid xs ++ take mid xs) h (length-drop-take mid xs) (rotated mid h),
      )

  -- After `rotate_right(k)`, for a positive `k` at most the number of elements, the first
  -- element is the one that was at index `len - k`.
  pub first-rotate_right :
      (k : ℕ) {v : VecCopy} {xs : List A}
      → Holds t v xs
      → 0 < k
      → k ≤ length xs
      → (w : VecCopy) × (rotate_right p v k ≡ ok w) × (get p t w 0 ≡ get p t v (length xs - k))
  first-rotate_right k {v} {xs} h pos le =
      let (w, e, hw) = rotate_right_refines k h le in
      (
        w,
        e,
        get-eq-get_elem? p t hw 0
            ∙ ap or_panic
                (get_elem?-drop-append xs (take (length xs - k) xs) (length xs - k) (omega arith))
            ∙ sym (get-eq-get_elem? p t h (length xs - k)),
      )

  -- In a development build `rotate_left` by more than the number of elements panics.
  pub rotate_left-panic :
      (mid : ℕ) {v : VecCopy} {xs : List A}
      → p.debug ≡ true
      → Holds t v xs
      → length xs < mid
      → rotate_left p v mid ≡ panic
  unfolding rotate_left slice_rotate_left mul_usize
  rotate_left-panic mid {v} {xs} dev h lt =
      let past : length v.items.items < mid * v.element_size =
        rw (h.same_size, byte_length h) (grind (arith, h.positive)) in
      ground arith

-- In a release build `rotate_left` by `2 ^ 63` leaves any buffer of elements of an even size as
-- it is and does not panic, however few elements it has: the number of bytes wraps to 0.
pub rotate_left-wrap :
    (p : Platform) (v : VecCopy) (n : ℕ)
    → p.debug ≡ false
    → v.element_size ≡ 2 * n
    → rotate_left p v (2 ^ 63) ≡ ok v
unfolding rotate_left slice_rotate_left mul_usize
rotate_left-wrap p v n release even =
    let nothing : mul_usize p (2 ^ 63) v.element_size ≡ ok 0 = rw even (ground arith) in
    rw (nothing, leb-true 0 (length v.items.items) (omega arith), append-nil)
