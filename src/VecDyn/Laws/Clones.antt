-- ===== src/VecDyn/Laws/Clones.antt =====
-- The operations of a `VecDyn` that clone elements.
use buffer.Common.{
  arith, ◌≡◌, refl, ap, sym, List, [], length, drop, ok, true, some, append-nil, drop_all, subst,
}
use mathlib.Core.Path.{fun_ext}
use native.Mathlib.Nat.{le_of_eq}
use buffer.Std.Platform.{Platform}
use buffer.Std.Vec.{vec}
use buffer.Bytes.{Repr, encode}
use buffer.Bytes.Laws.{length-encode}
use buffer.Traits.{Impls, build_vtable}
use buffer.VecCopy.{with_items, byte_chunks, clone_with}
use buffer.VecCopy.Access.{iter_mut}
use buffer.VecCopy.Holds.{byte_length}
use buffer.VecCopy.Laws.Erased.{byte_chunks_refines}
use buffer.VecCopy.Laws.Read.{as_slice_refines, as_mut_slice_refines}
use buffer.VecDyn.{VecDyn, with_data, clone, data_clone}
use buffer.VecDyn.Typed.{fill, clone_into_vec, append_cloned_to_vec}
use buffer.Elements.Laws.{
  default_clone_from, replace_by, assign_clones_lem, clone_slice_lem, clone_from_each_lem, thread,
  length-thread,
}
use buffer.VecDyn.Laws.{HoldsDyn}

module _ {A W : Type 0} (t : Repr A) (impls : Impls A W) where
  pub clone_refines :
      {v : VecDyn W} {xs : List A}
      → HoldsDyn t impls v xs
      → (w : W)
      → let new = thread (λ x. impls.clone_from x x) xs w in
        (u : VecDyn W) × (clone v w ≡ ok (u, new.1)) × HoldsDyn t impls u new.0
  unfolding build_vtable clone clone_with data_clone byte_chunks encode
  clone_refines {v} {xs} h w =
      let bytes = v.elements.items.items in
      let new = thread (λ x. impls.clone_from x x) xs w in
      let chunked = byte_chunks_refines t h.holds in
      let no_tail : drop (length (encode t xs)) bytes ≡ [] =
        drop_all bytes _ (le_of_eq (ap length h.holds.memory)) in
      let same_length : length bytes ≡ length (encode t new.0) =
        rw (length-encode t new.0, length-thread (λ x. impls.clone_from x x) xs w)
          (byte_length h.holds) in
      (
        with_data v (with_items v.elements (vec (encode t new.0) (length bytes))),
        rw (chunked, clone, h.table, clone_from_each_lem t impls xs w) (rw (no_tail, append-nil)),
        record {
          holds = record {
            positive = h.holds.positive;
            same_type = h.holds.same_type;
            same_size = h.holds.same_size;
            memory = refl;
            room = record {
              enough = le_of_eq (sym same_length);
              allocatable = omega (arith, h.holds.room.enough, h.holds.room.allocatable);
            };
          };
          table = h.table;
        },
      )

  -- Where a type has the default `clone_from`, cloning a `VecDyn` clones each element and then
  -- drops the original, which the buffer still holds; the new buffer holds the clones.
  pub clone-drops_elements :
      {v : VecDyn W} {xs : List A}
      → HoldsDyn t impls v xs
      → ((dst src : A) (w : W) → impls.clone_from dst src w ≡ default_clone_from impls dst src w)
      → (w : W)
      → let new = thread (λ x. default_clone_from impls x x) xs w in
        (u : VecDyn W) × (clone v w ≡ ok (u, new.1)) × HoldsDyn t impls u new.0
  clone-drops_elements {v} {xs} h default w =
      subst
        (λ (f : A → W → A × W).
          let new = thread f xs w in
          (u : VecDyn W) × (clone v w ≡ ok (u, new.1)) × HoldsDyn t impls u new.0)
        (fun_ext (λ x. fun_ext (λ u. default x x u))) (clone_refines h w)

module _ (p : Platform) {A W : Type 0} (t : Repr A) (impls : Impls A W) where
  -- `clone_into_vec` of a `VecDyn` that holds `xs` at its type is a vector of clones of `xs`,
  -- made in order, and drops nothing.
  clone_into_vec_refines :
      {v : VecDyn W} {xs : List A}
      → HoldsDyn t impls v xs
      → (w : W)
      → clone_into_vec p t impls v w
        ≡ ok (some (thread impls.clone xs w).0, (thread impls.clone xs w).1)
  unfolding clone_into_vec append_cloned_to_vec
  clone_into_vec_refines {v} {xs} h w =
      rw (as_slice_refines p t h.holds, clone_into_vec, clone_slice_lem impls xs w)

  -- `fill` of a `VecDyn` that holds `xs` at its type puts a clone of the value in the place of
  -- each element, drops each old element once, drops the value at the end, and returns `Some`.
  pub fill_keeps :
      {v : VecDyn W} {xs : List A} (def : A)
      → HoldsDyn t impls v xs
      → (w : W)
      → let new = thread (replace_by impls def) xs w in
        (u : VecDyn W) × (fill p t impls v def w ≡ ok ((u, true), impls.drop def new.1))
        × HoldsDyn t impls u new.0
  unfolding fill iter_mut
  fill_keeps {v} {xs} def h w =
      let new = thread (replace_by impls def) xs w in
      let (r, e, same, put) = as_mut_slice_refines p t h.holds in
      (
        with_data v (r.put new.0),
        rw (e, fill, same, assign_clones_lem impls def xs w),
        record { holds = put new.0 (length-thread (replace_by impls def) xs w); table = h.table },
      )
