-- ===== src/VecDyn/Laws/Updates.antt =====
-- The operations of a `VecDyn` that add and remove elements.
use native.Mathlib.Decide.{dec_lt}
use buffer.Common.{
  arith, ◌≡◌, ◌≢◌, ℕ, ◌+◌, ◌-◌, ◌*◌, ◌≤◌, ◌<◌, List, [], ◌∷◌, ◌++◌, length, take, drop, ok, true,
  false, append-nil, leb-true, leb-false, take_all, drop_all, drop-map,
}
use buffer.Std.Platform.{Platform, isize_max, mul_usize_fits}
use buffer.Bytes.{Repr}
use buffer.Traits.{build_vtable, Impls}
use buffer.VecCopy.{with_items}
use buffer.VecCopy.Holds.{byte_length, len-Holds, check_ref-Holds, check_ref-mismatch}
use buffer.VecCopy.Laws.Push.{push_refines, reserve_bytes-Holds, truncate-Holds}
use buffer.VecDyn.{VecDyn, with_data}
use buffer.VecDyn.Typed
use buffer.VecDyn.Typed.{resize}
use buffer.Elements.Laws.{
  clones, push_clones_lem, drop_values, byte_chunks_mut_refines, drop_each_lem,
}
use buffer.VecDyn.Laws.{HoldsDyn}

module _ (p : Platform) {A W : Type 0} (t : Repr A) (impls : Impls A W) where
  pub push_keeps :
      {v : VecDyn W} {xs : List A} (x : A)
      → HoldsDyn t impls v xs
      → length v.elements.items.items + t.size_of ≤ isize_max
      → (w : W)
      → (u : VecDyn W) × (Typed.push p t impls v x w ≡ ok ((u, true), w))
        × HoldsDyn t impls u (xs ++ x ∷ [])
  unfolding Typed.push
  push_keeps {v} x h small w =
      let (data', e, holds) = push_refines p t x h.holds small in
      (
        with_data v data',
        rw (check_ref-Holds h.holds, Typed.push, e),
        record { holds = holds; table = h.table },
      )

  pub push-drops :
      (v : VecDyn W) (x : A) (w : W)
      → t.type_id ≢ v.elements.element_type_id
      → Typed.push p t impls v x w ≡ ok ((v, false), impls.drop x w)
  unfolding Typed.push
  push-drops v x w differ = rw (check_ref-mismatch t v.elements differ, Typed.push)

  resize_grow :
      (n : ℕ) {v : VecDyn W} {xs : List A} (x : A)
      → HoldsDyn t impls v xs
      → length xs ≤ n
      → n * t.size_of ≤ isize_max
      → (w : W)
      → (u : VecDyn W) × (resize p t impls v n x w
          ≡ ok ((u, true), impls.drop x (clones impls (n - length xs) x w).1))
        × HoldsDyn t impls u (xs ++ (clones impls (n - length xs) x w).0)
  unfolding resize
  resize_grow n {v} {xs} x h le small w =
      let diff = n - length xs in
      let total : length v.elements.items.items + diff * t.size_of ≤ isize_max =
        grind (arith, byte_length h.holds) in
      let (u, e, hu, same) = reserve_bytes-Holds p t (diff * t.size_of) h.holds total in
      let (u', e', hu') = push_clones_lem p t impls diff x hu (rw same total) w in
      let fits = mul_usize_fits p diff t.size_of (omega arith) in
      (
        with_data v u',
        rw (
          check_ref-Holds h.holds,
          resize,
          len-Holds p h.holds,
          leb-true (length xs) n le,
          fits,
          e,
          e',
        ),
        record { holds = hu'; table = h.table },
      )

  resize_shrink :
      (n : ℕ) {v : VecDyn W} {xs : List A} (x : A)
      → HoldsDyn t impls v xs
      → n < length xs
      → (w : W)
      → (u : VecDyn W) × (resize p t impls v n x w
          ≡ ok ((u, true), impls.drop x (drop_values impls (drop n xs) w)))
        × HoldsDyn t impls u (take n xs)
  unfolding resize build_vtable
  resize_shrink n {v} {xs} x h lt w =
      let (r, chunked, pieces) = byte_chunks_mut_refines t h.holds in
      let (d, e, fits, hd) = truncate-Holds p t n h.holds lt in
      (
        with_data v (with_items v.elements d),
        rw (
          check_ref-Holds h.holds,
          resize,
          len-Holds p h.holds,
          leb-false (length xs) n lt,
          chunked,
          pieces,
          h.table,
          drop-map n t.to_bytes xs,
          drop_each_lem t impls (drop n xs) w,
          fits,
          e,
        ),
        record { holds = hd; table = h.table },
      )

  -- `resize` of a `VecDyn` that holds `xs` to `n` elements, where these take at most
  -- `isize::MAX` bytes, drops the elements from index `n` on, once each and in order, puts
  -- clones of the value behind the others as far as elements are missing, drops the value, and
  -- returns `Some`.
  pub resize_keeps :
      (n : ℕ) {v : VecDyn W} {xs : List A} (x : A)
      → HoldsDyn t impls v xs
      → n * t.size_of ≤ isize_max
      → (w : W)
      → let new = clones impls (n - length xs) x (drop_values impls (drop n xs) w) in
        (u : VecDyn W) × (resize p t impls v n x w ≡ ok ((u, true), impls.drop x new.1))
        × HoldsDyn t impls u (take n xs ++ new.0)
  resize_keeps n {v} {xs} x h small w = elim (dec_lt n (length xs)) [
    | yes lt ↦
        let none_new : n - length xs ≡ 0 = omega arith in
        let (u, e, hu) = resize_shrink n x h lt w in
        (u, rw none_new e, rw (none_new, append-nil) hu)
    | no ge ↦
        let (u, e, hu) = resize_grow n x h (omega arith) small w in
        (
          u,
          rw (drop_all xs n (omega arith)) e,
          rw (take_all xs n (omega arith), drop_all xs n (omega arith)) hu,
        )
  ]
