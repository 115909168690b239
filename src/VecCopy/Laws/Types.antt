-- ===== src/VecCopy/Laws/Types.antt =====
-- The type check of `VecCopy`: at another type than its own nothing is read or written.
use buffer.Common.{ℕ, ◌<◌, ◌≡◌, ◌≢◌, List, false, none, ok, ltb-true}
use buffer.Std.Platform.{Platform}
use buffer.Bytes.{Repr}
use buffer.VecCopy.{VecCopy, len}
use buffer.VecCopy.Access.{as_slice, as_mut_slice, iter, iter_mut, get, get_ref, get_mut}
use buffer.VecCopy.Update.{push, resize, fill}
use buffer.VecCopy.Convert.{Reinterpret, append_to_vec, copy_into_vec, into_vec}
use buffer.VecCopy.Holds.{check_ref-mismatch, check-mismatch, check_mut-mismatch}

module _ (p : Platform) {A : Type 0} (t : Repr A) (v : VecCopy)
    (differ : t.type_id ≢ v.element_type_id) where
  -- At a type whose `TypeId` is not that of the buffer, `push`, `resize` and `fill` return
  -- `None` and leave the buffer as it is.
  updates-mismatch :
      (n : ℕ) (x : A)
      → (push p t v x ≡ ok (v, false))
        × (resize p t v n x ≡ ok (v, false))
        × (fill p t v x ≡ ok (v, false))
  unfolding push resize fill iter_mut as_mut_slice
  updates-mismatch n x =
      let e = check_ref-mismatch t v differ in
      (rw (e, push), rw (e, resize), rw (check_mut-mismatch t v differ, as_mut_slice))

  -- At a type whose `TypeId` is not that of the buffer, `as_slice`, `as_mut_slice`,
  -- `append_to_vec`, `copy_into_vec` and `into_vec` return `None`.
  reads-mismatch :
      (r : Reinterpret t) (ys : List A)
      → (as_slice p t v ≡ ok none)
        × (as_mut_slice p t v ≡ ok none)
        × (append_to_vec p t v ys ≡ ok none)
        × (copy_into_vec p t v ≡ ok none)
        × (into_vec r v ≡ ok none)
  unfolding as_slice as_mut_slice append_to_vec copy_into_vec iter into_vec
  reads-mismatch r ys =
      let e = check_ref-mismatch t v differ in
      (
        rw (e, as_slice),
        rw (check_mut-mismatch t v differ, as_mut_slice),
        rw (e, as_slice),
        rw (e, as_slice),
        rw (check-mismatch t v differ, into_vec),
      )

  pub get-mismatch :
      (i : ℕ) {n : ℕ}
      → len p v ≡ ok n
      → i < n
      → (get p t v i ≡ ok none) × (get_ref p t v i ≡ ok none) × (get_mut p t v i ≡ ok none)
  unfolding get get_ref get_mut
  get-mismatch i {n} e lt =
      let c = check_ref-mismatch t v differ in
      (
        rw (e, get, ltb-true i n lt, c),
        rw (e, get_ref, ltb-true i n lt, c),
        rw (e, get_mut, ltb-true i n lt, check_mut-mismatch t v differ),
      )
