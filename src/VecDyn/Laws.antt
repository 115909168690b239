-- ===== src/VecDyn/Laws.antt =====
-- When a `VecDyn` holds a sequence of typed values, and what the functions of its table then do on
-- all of its elements.
pub mod Drops
pub mod Equality
pub mod Clones
pub mod Updates
pub mod Values
pub mod Calls
pub mod Fresh
pub mod Lent
use buffer.Common.{
  suc, ◌≡◌, refl, ap, sym, ◌∙◌, ℕ, List, [], ◌∷◌, map, length, ok, Bool, true, false,
}
use buffer.Bytes.{Repr, RefMut}
use buffer.Traits.{Impls, VTable, build_vtable}
use buffer.Traits.Laws.{drop_bytes_lem, clone_from_bytes_lem}
use buffer.VecCopy.{VecCopy, byte_chunks, byte_chunks_mut, with_items}
use buffer.Std.Vec.{vec}
use buffer.Std.Slice.{concat}
use buffer.Common.{◌++◌, drop}
use buffer.VecCopy.Holds.{Holds}
use buffer.VecCopy.Laws.Erased.{byte_chunks_refines}
use buffer.VecDyn.{VecDyn, drop_each, clone_from_each}

-- `v` is a buffer of the values `xs` of type `A`, and its table is the one that is built for `A`.
pub record HoldsDyn {A W : Type 0} (t : Repr A) (impls : Impls A W) (v : VecDyn W) (xs : List A)
    : Type 0 where
  pub holds : Holds t v.elements xs
  pub table : v.vtable ≡ build_vtable t impls
