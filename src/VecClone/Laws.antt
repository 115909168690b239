-- ===== src/VecClone/Laws.antt =====
-- What a `VecClone` does with the values that it holds.
pub mod Calls
pub mod Hash
use buffer.Common.{
  ◌∷◌, ◌+◌, arith, ◌≡◌, refl, ap, sym, ℕ, ◌<◌, ◌≤◌, ◌*◌, ◌-◌, ◌++◌, List, [], map, length, drop,
  take, ok, true, append-nil, drop_all, leb-true, leb-false, take_all, drop-map,
}
use native.Mathlib.Decide.{dec_lt}
use native.Mathlib.Nat.{le_of_eq}
use buffer.Std.Platform.{Platform, isize_max, mul_usize_fits}
use buffer.Std.Vec.{Vec, vec}
use buffer.Bytes.{Repr, encode}
use buffer.Traits.{Impls}
use buffer.VecCopy.{VecCopy, with_items, byte_chunks, clone_with}
use buffer.VecCopy.Build.{from_vec as copy_from_vec}
use buffer.VecCopy.Holds.{Holds, byte_length, len-Holds, check_ref-Holds}
use buffer.VecCopy.Laws.Build.{from_vec_refines}
use buffer.VecCopy.Laws.Erased.{byte_chunks_refines}
use buffer.VecCopy.Laws.Push.{reserve_bytes-Holds, truncate-Holds}
use buffer.Elements.{drop_each, clone_from_each}
use buffer.Elements.Laws.{
  drop_values, byte_chunks_mut_refines, drop_each_lem, clones, push_clones_lem,
}
use buffer.VecClone.{
  keep_dst, no_drop, VecClone, with_elements, drop_all as drop_elements, clone, data_clone,
  from_vec_copy,
}
use buffer.VecClone.Typed.{with_fns, resize, from_vec}

-- Dropping a buffer that was made of a vector.
module _ (p : Platform) {A W : Type 0} (t : Repr A) (impls : Impls A W) where
  -- A `VecClone` made by `from_vec` of a vector, and then dropped, drops each element of the
  -- vector once, from the first to the last, for elements that are not zero-sized and a vector
  -- within its capacity, which takes at most `isize::MAX` bytes.
  pub from_vec_then_drop :
      (ys : Vec A)
      → 0 < t.size_of
      → length ys.items ≤ ys.capacity
      → ys.capacity * t.size_of ≤ isize_max
      → (w : W)
      → (v : VecClone W) × (from_vec t impls p ys ≡ ok v)
        × (drop_elements v w ≡ ok (tt, drop_values impls ys.items w))
  unfolding from_vec drop_elements copy_from_vec
  from_vec_then_drop ys positive le small w =
      let (d, e, h, _) = from_vec_refines p t positive ys le small in
      let (r, chunked, pieces) = byte_chunks_mut_refines t h in
      (
        with_fns t impls d,
        rw (e, from_vec),
        rw (chunked, drop_elements, pieces) (drop_each_lem t impls ys.items w),
      )

  resize_grow :
      (n : ℕ) {d : VecCopy} {xs : List A} (x : A)
      → Holds t d xs
      → length xs ≤ n
      → n * t.size_of ≤ isize_max
      → (w : W)
      → (u : VecCopy) × (resize p t impls (with_fns t impls d) n x w
          ≡ ok ((with_fns t impls u, true), impls.drop x (clones impls (n - length xs) x w).1))
        × Holds t u (xs ++ (clones impls (n - length xs) x w).0)
  unfolding resize
  resize_grow n {d} {xs} x h le small w =
      let diff = n - length xs in
      let total : length d.items.items + diff * t.size_of ≤ isize_max =
        grind (arith, byte_length h) in
      let (u, e, hu, same) = reserve_bytes-Holds p t (diff * t.size_of) h total in
      let (u', e', hu') = push_clones_lem p t impls diff x hu (rw same total) w in
      let fits = mul_usize_fits p diff t.size_of (omega arith) in
      (
        u',
        rw (check_ref-Holds h, resize, len-Holds p h, leb-true (length xs) n le, fits, e, e'),
        hu',
      )

  resize_shrink :
      (n : ℕ) {d : VecCopy} {xs : List A} (x : A)
      → Holds t d xs
      → n < length xs
      → (w : W)
      → (u : VecCopy) × (resize p t impls (with_fns t impls d) n x w
          ≡ ok ((with_fns t impls u, true), impls.drop x (drop_values impls (drop n xs) w)))
        × Holds t u (take n xs)
  unfolding resize
  resize_shrink n {d} {xs} x h lt w =
      let (r, chunked, pieces) = byte_chunks_mut_refines t h in
      let (items, e, fits, hu) = truncate-Holds p t n h lt in
      (
        with_items d items,
        rw (
          check_ref-Holds h,
          resize,
          len-Holds p h,
          leb-false (length xs) n lt,
          chunked,
          pieces,
          drop-map n t.to_bytes xs,
          drop_each_lem t impls (drop n xs) w,
          fits,
          e,
        ),
        hu,
      )

  -- `resize` to `n` elements, where these take at most `isize::MAX` bytes, of a `VecClone` that
  -- holds `xs` and carries the functions of their type, drops the elements from index `n` on,
  -- once each and in order, puts clones of the value behind the others as far as elements are
  -- missing, drops the value, and returns `Some`.
  pub resize_keeps_fns :
      (n : ℕ) {d : VecCopy} {xs : List A} (x : A)
      → Holds t d xs
      → n * t.size_of ≤ isize_max
      → (w : W)
      → let new = clones impls (n - length xs) x (drop_values impls (drop n xs) w) in
        (u : VecCopy) × (resize p t impls (with_fns t impls d) n x w
          ≡ ok ((with_fns t impls u, true), impls.drop x new.1))
        × Holds t u (take n xs ++ new.0)
  resize_keeps_fns n {d} {xs} x h small w = elim (dec_lt n (length xs)) [
    | yes lt ↦
        let none_new : n - length xs ≡ 0 = omega arith in
        let (u, e, hu) = resize_shrink n x h lt w in
        (u, rw none_new e, rw (none_new, append-nil) hu)
    | no ge ↦
        let (u, e, hu) = resize_grow n x h (omega arith) small w in
        (
          u,
          rw (drop_all xs n (omega arith)) e,
          rw (take_all xs n (omega arith), drop_all xs n (omega arith)) hu,
        )
  ]

module _ {W : Type 0} where
  keep_each :
      (pieces : List (List ℕ)) (w : W) → clone_from_each keep_dst pieces pieces w ≡ ok (pieces, w)
  unfolding clone_from_each
  keep_each [] w = refl
  keep_each (piece ∷ pieces) w = rw (keep_each pieces w, clone_from_each)

  drop_none : (pieces : List (List ℕ)) (w : W) → drop_each no_drop pieces w ≡ ok (tt, w)
  unfolding drop_each
  drop_none [] w = refl
  drop_none (piece ∷ pieces) w = drop_none pieces w

  -- A `VecCopy` that holds `xs`, turned into a `VecClone` and cloned, gives a buffer that holds
  -- the same values; the clone changes nothing else, and neither does dropping the new buffer.
  pub clone-from_vec_copy :
      {A : Type 0} (t : Repr A) {d : VecCopy} {xs : List A}
      → Holds t d xs
      → (w : W)
      → (u : VecClone W) × (clone (from_vec_copy d) w ≡ ok (u, w))
        × Holds t u.elements xs
        × (drop_elements u w ≡ ok (tt, w))
  unfolding clone clone_with data_clone from_vec_copy byte_chunks encode drop_elements
  clone-from_vec_copy t {d} {xs} h w =
      let bytes = d.items.items in
      let no_tail : drop (length (encode t xs)) bytes ≡ [] =
        drop_all bytes _ (le_of_eq (ap length h.memory)) in
      let d' : VecCopy = with_items d (vec (encode t xs) (length bytes)) in
      let hd : Holds t d' xs = record {
        positive = h.positive;
        same_type = h.same_type;
        same_size = h.same_size;
        memory = refl;
        room = record {
          enough = le_of_eq (ap length (sym h.memory));
          allocatable = omega (arith, h.room.enough, h.room.allocatable);
        };
      } in
      let (r, chunked, pieces) = byte_chunks_mut_refines t hd in
      (
        with_elements (from_vec_copy d) d',
        rw (byte_chunks_refines t h, clone, keep_each (map t.to_bytes xs) w)
            (rw (no_tail, append-nil)),
        hd,
        rw (chunked, drop_elements) (drop_none r.value w),
      )
