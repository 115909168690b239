-- ===== src/VecDyn/Laws/Values.antt =====
-- Type-erased values put behind the elements of a `VecDyn`.
use buffer.Common.{
  ℕ, arith, ◌≡◌, ◌≢◌, refl, sym, ◌∙◌, ◌+◌, ◌-◌, ◌≤◌, ◌<◌, List, [], ◌∷◌, ◌++◌, length, ok, true,
  false, ==-true, ==-false, replicate, length-replicate, take-append, drop-append,
}
use buffer.Std.Platform.{Platform, isize_max}
use buffer.Std.Vec.{vec, resize as vec_resize}
use buffer.Std.Vec.Laws.{Capacity, extend_from_slice_lem, fill_up_lem}
use buffer.Bytes.{Repr}
use buffer.Bytes.Laws.{encode_one}
use buffer.Traits.{build_vtable, Impls}
use buffer.Traits.Laws.{clone_bytes_lem, drop_bytes_lem, clone_into_raw_bytes_lem}
use buffer.Value.Laws.{boxed, borrowed}
use buffer.VecCopy.{with_items}
use buffer.VecCopy.Holds.{append-Holds}
use buffer.VecDyn.{VecDyn, with_data, push_value, push_cloned}
use buffer.VecDyn.Laws.{HoldsDyn}
use buffer.Value.Shared.{clone_value}
use buffer.Common.Effects.{◌>>=◌}

module _ (p : Platform) {A W : Type 0} (t : Repr A) (impls : Impls A W) where
  -- `push_value` of a boxed value of the type of a `VecDyn` returns `Some` and moves it behind
  -- the others: nothing is cloned or dropped, if all bytes are at most `isize::MAX`.
  pub push_value_keeps :
      {v : VecDyn W} {xs : List A} (x : A)
      → HoldsDyn t impls v xs
      → length v.elements.items.items + t.size_of ≤ isize_max
      → (w : W)
      → (u : VecDyn W) × (push_value p v (boxed t impls x) w ≡ ok ((u, true), w))
        × HoldsDyn t impls u (xs ++ x ∷ [])
  unfolding push_value
  push_value_keeps {v} x h small w =
      let d = v.elements.items in
      let small' : length d.items + length (t.to_bytes x) ≤ isize_max =
        rw (t.length-to_bytes x) small in
      let (most, e, c) = extend_from_slice_lem p d (t.to_bytes x) h.holds.room small' in
      (
        with_data v (with_items v.elements (vec (d.items ++ t.to_bytes x) most)),
        rw (==-true v.elements.element_type_id t.type_id h.holds.same_type, e),
        record {
          holds = append-Holds (x ∷ []) most h.holds (sym (encode_one t x)) c;
          table = h.table;
        },
      )

  pub push_value-drops :
      (v : VecDyn W) (x : A) (w : W)
      → v.elements.element_type_id ≢ t.type_id
      → push_value p v (boxed t impls x) w ≡ ok ((v, false), impls.drop x w)
  unfolding push_value build_vtable
  push_value-drops v x w differ =
      rw (==-false v.elements.element_type_id t.type_id differ, drop_bytes_lem t impls x w)

  -- `push_cloned` of a reference to a value of the type of a `VecDyn` returns `Some` and puts a
  -- clone of it behind the others; besides that one clone nothing is cloned or dropped, if all
  -- bytes are at most `isize::MAX`.
  pub push_cloned_keeps :
      {v : VecDyn W} {xs : List A} (x : A)
      → HoldsDyn t impls v xs
      → length v.elements.items.items + t.size_of ≤ isize_max
      → (w : W)
      → (u : VecDyn W) × (push_cloned p v (borrowed t impls x) w
          ≡ ok ((u, true), (impls.clone x w).1))
        × HoldsDyn t impls u (xs ++ (impls.clone x w).0 ∷ [])
  unfolding push_cloned build_vtable
  push_cloned_keeps {v} {xs} x h small w =
      let d = v.elements.items in
      let y = (impls.clone x w).0 in
      let orig_len = length d.items in
      let n = orig_len + length (t.to_bytes x) in
      let zeros : List ℕ = replicate (n - orig_len) 0 in
      let width : length zeros ≡ t.size_of =
        rw length-replicate (omega (arith, t.length-to_bytes x)) in
      let longer : orig_len < n = omega (arith, t.length-to_bytes x, h.holds.positive) in
      let (most, e, c) = extend_from_slice_lem p d zeros h.holds.room (rw width small) in
      let c' : Capacity (length d.items + length (t.to_bytes y)) most =
        rw (t.length-to_bytes y, ← width) c in
      let filled : vec_resize p d n 0 ≡ ok (vec (d.items ++ zeros) most) =
        fill_up_lem p d n 0 longer ∙ e in
      (
        with_data v (with_items v.elements (vec (d.items ++ t.to_bytes y) most)),
        rw (
          ==-true v.elements.element_type_id t.type_id h.holds.same_type,
          filled,
          h.table,
          drop-append d.items zeros orig_len refl,
          take-append d.items zeros orig_len refl,
          clone_into_raw_bytes_lem t impls x zeros w width,
        ),
        record {
          holds = append-Holds (y ∷ []) most h.holds (sym (encode_one t y)) c';
          table = h.table;
        },
      )

  clone_value-borrowed :
      (x : A) (w : W)
      → clone_value (borrowed t impls x) w
        ≡ ok (boxed t impls (impls.clone x w).0, (impls.clone x w).1)
  unfolding clone_value build_vtable
  clone_value-borrowed x w = rw (clone_bytes_lem t impls x w)

  -- `push_cloned` of a reference to a value of the type of a `VecDyn`, and `push_value` of what
  -- `clone_value` makes of the reference, both return `Some` and change the world in the same
  -- way, and both buffers hold the elements with the clone behind them, if all bytes are at most
  -- `isize::MAX`.
  pub push_cloned-push_value :
      {v : VecDyn W} {xs : List A} (x : A)
      → HoldsDyn t impls v xs
      → length v.elements.items.items + t.size_of ≤ isize_max
      → (w : W)
      → (direct : VecDyn W) × (boxing : VecDyn W) × (after : W) × (push_cloned p v
            (borrowed t impls x)
            w
          ≡ ok ((direct, true), after))
        × ((clone_value (borrowed t impls x) >>= push_value p v) w ≡ ok ((boxing, true), after))
        × HoldsDyn t impls direct (xs ++ (impls.clone x w).0 ∷ [])
        × HoldsDyn t impls boxing (xs ++ (impls.clone x w).0 ∷ [])
  push_cloned-push_value x h small w =
      let (direct, e, d) = push_cloned_keeps x h small w in
      let (boxing, f, b) = push_value_keeps (impls.clone x w).0 h small (impls.clone x w).1 in
      (direct, boxing, (impls.clone x w).1, e, rw (clone_value-borrowed x w) f, d, b)
