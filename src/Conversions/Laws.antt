-- ===== src/Conversions/Laws.antt =====
-- Vectors that are turned into buffers and back, and slices of clones.
use buffer.Common.{arith, ◌≡◌, refl, ◌*◌, ◌≤◌, ◌<◌, List, length, some, ok, ◌>>=◌}
use buffer.Std.Platform.{Platform, isize_max}
use buffer.Std.Vec.{Vec, vec}
use buffer.Bytes.{Repr}
use buffer.Traits.{Impls}
use buffer.Elements.Laws.{thread, length-thread, clone_slice_lem}
use buffer.VecCopy.{VecCopy}
use buffer.VecCopy.Build as Inner
use buffer.VecCopy.Convert.{Reinterpret}
use buffer.VecCopy.Holds.{Holds}
use buffer.VecCopy.Laws.Build.{from_vec_refines, from_slice_refines, into_vec-from_vec}
use buffer.VecDyn.{VecDyn}
use buffer.VecDyn.Build as DynBuild
use buffer.VecDyn.Typed as DynTyped
use buffer.VecDyn.Laws.{HoldsDyn}
use buffer.VecClone.Typed as CloneTyped
use buffer.VecClone.Typed.{with_fns}
use buffer.Conversions.{
  vec_copy_from, vec_dyn_from, vec_clone_from, vec_copy_into, vec_dyn_into, vec_clone_into,
  vec_copy_from_ref, vec_dyn_from_ref, vec_clone_from_ref,
}

module _ (p : Platform) {A W : Type 0} (t : Repr A) (impls : Impls A W)
    (positive : 0 < t.size_of) where
  -- `into` after `from` gives back the same vector, elements and capacity, for each of
  -- `VecCopy`, `VecDyn` and `VecClone`, for elements that are not zero-sized, a vector whose
  -- length is within its capacity and whose capacity takes at most `isize::MAX` bytes, and a
  -- `reinterpret_vec` as assumed.
  pub into-from :
      (r : Reinterpret t) (ys : Vec A)
      → length ys.items ≤ ys.capacity
      → ys.capacity * t.size_of ≤ isize_max
      → ((vec_copy_from p t ys >>= vec_copy_into r) ≡ ok (some ys))
        × ((vec_dyn_from t impls p ys >>= vec_dyn_into r) ≡ ok (some ys))
        × ((vec_clone_from t impls p ys >>= vec_clone_into r) ≡ ok (some ys))
  unfolding vec_copy_from vec_copy_into vec_dyn_from vec_dyn_into vec_clone_from vec_clone_into
      DynBuild.from_vec DynTyped.into_vec CloneTyped.from_vec CloneTyped.into_vec Inner.from_vec
  into-from r ys le small =
      let same = into_vec-from_vec p t positive r ys le small in
      let (v, e, h, _) = from_vec_refines p t positive ys le small in
      let back = rw e at same in (same, rw e back, rw e back)

  -- `from` of a slice, which takes at most `isize::MAX` bytes and whose elements are not
  -- zero-sized, makes a `VecCopy` that holds its elements, and a `VecDyn` and a `VecClone` that
  -- hold clones of them; each of the latter two clones every element once, in order, and changes
  -- nothing else.
  pub from_ref_clones :
      (xs : List A)
      → length xs * t.size_of ≤ isize_max
      → (w : W)
      → let new = thread impls.clone xs w in
        (c : VecCopy) × (v : VecDyn W) × (d : VecCopy) × (vec_copy_from_ref p t xs ≡ ok c)
        × (vec_dyn_from_ref t impls p xs w ≡ ok (v, new.1))
        × (vec_clone_from_ref t impls p xs w ≡ ok (with_fns t impls d, new.1))
        × Holds t c xs
        × HoldsDyn t impls v new.0
        × Holds t d new.0
  unfolding vec_copy_from_ref vec_dyn_from_ref vec_clone_from_ref DynBuild.from_slice
      CloneTyped.from_slice Inner.from_slice_non_copy Inner.from_vec
  from_ref_clones xs small w =
      let new = thread impls.clone xs w in
      let fits : length new.0 * t.size_of ≤ isize_max = rw (length-thread impls.clone xs w) small in
      let (d, e, h, _) =
        from_vec_refines p t positive (vec new.0 (length new.0)) (omega arith) fits in
      let (c, f, k) = from_slice_refines p t positive xs small in
      (
        c,
        _,
        d,
        f,
        rw (clone_slice_lem impls xs w, DynBuild.from_slice, e),
        rw (clone_slice_lem impls xs w, CloneTyped.from_slice, e),
        k,
        record { holds = h; table = refl },
        h,
      )
