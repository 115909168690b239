-- ===== src/VecDyn/Laws/Drops.antt =====
-- Which elements of a `VecDyn` are dropped, and when.
use buffer.Common.{◌≡◌, refl, List, [], ok}
use buffer.Bytes.{Repr}
use buffer.Traits.{Impls, build_vtable}
use buffer.Std.Vec.{vec}
use buffer.VecCopy.{with_items}
use buffer.VecCopy.Holds.{clear-Holds}
use buffer.VecDyn.{with_data, VecDyn, drop_all, clear}
use buffer.Elements.Laws.{drop_values, byte_chunks_mut_refines, drop_each_lem}
use buffer.VecDyn.Laws.{HoldsDyn}

module _ {A W : Type 0} (t : Repr A) (impls : Impls A W) {v : VecDyn W} {xs : List A} where
  -- Dropping a `VecDyn` that holds `xs` drops each of them once, from the first to the last.
  pub drop_all_refines :
      HoldsDyn t impls v xs → (w : W) → drop_all v w ≡ ok (tt, drop_values impls xs w)
  unfolding drop_all build_vtable
  drop_all_refines h w =
      let (r, e, same) = byte_chunks_mut_refines t h.holds in
      rw (e, drop_all, same, h.table) (drop_each_lem t impls xs w)

  -- `clear` of a `VecDyn` that holds `xs` drops each of them once, from the first to the last,
  -- and leaves a buffer that holds nothing and has the same capacity.
  pub clear_refines :
      HoldsDyn t impls v xs
      → (w : W)
      → (u : VecDyn W) × (clear v w ≡ ok (u, drop_values impls xs w))
        × HoldsDyn t impls u []
        × (u.elements.items.capacity ≡ v.elements.items.capacity)
  unfolding clear build_vtable
  clear_refines h w =
      let (r, e, same) = byte_chunks_mut_refines t h.holds in
      (
        with_data v (with_items v.elements (vec [] v.elements.items.capacity)),
        rw (e, clear, same, h.table) (rw (drop_each_lem t impls xs w)),
        record { holds = clear-Holds h.holds; table = h.table },
        refl,
      )
