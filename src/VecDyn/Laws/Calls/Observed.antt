-- ===== src/VecDyn/Laws/Calls/Observed.antt =====
-- What is read of a `VecDyn` after calls of it.
use mathlib.Core.List.{map-map}
use buffer.Common.{◌∙◌, ap, get_elem?-lt, ◌≡◌, ◌≢◌, ℕ, List, map, length, get_elem?, some, ok}
use buffer.Std.Platform.{Platform}
use buffer.Bytes.{Repr}
use buffer.Traits.{Impls, build_vtable}
use buffer.Value.{ValueRef, ref}
use buffer.VecCopy.Laws.Erased.{byte_chunks_refines, get_bytes_refines, debug_assert_index_lem}
use buffer.VecCopy.Holds.{len-Holds}
use buffer.VecCopy.Laws.Read.{or_panic, as_slice_refines, get-eq-get_elem?, get_ref-eq-get}
use buffer.VecDyn as Dyn
use buffer.VecDyn.{VecDyn}
use buffer.VecDyn.Typed
use buffer.VecDyn.Laws.{HoldsDyn}
use buffer.VecDyn.Laws.Calls.{Call, run, after_all, Fits}
use buffer.VecDyn.Laws.Calls.Steps.{run_refines}

module _ (p : Platform) {A W : Type 0} (t : Repr A) (impls : Impls A W) where
  -- The reference to a value, with the table of the buffer.
  abbrev pub lent : A → ValueRef W
  lent x = record { bytes = t.to_bytes x; type_id = t.type_id; vtable = ref (build_vtable t impls) }

  -- Typed and type-erased reads give the values `ys`.
  pub record Reads (v : VecDyn W) (ys : List A) : Type 0 where
    pub length_read : Dyn.len p v ≡ ok (length ys)
    pub slice_read : Typed.as_slice p t v ≡ ok (some ys)
    pub value_read : (i : ℕ) → Typed.get_ref_as p t v i ≡ or_panic (get_elem? ys i)
    pub lent_value : (i : ℕ) {x : A} → get_elem? ys i ≡ some x → Dyn.get p v i ≡ ok (lent x)
    pub lent_values : Dyn.iter v ≡ ok (map lent ys)

  iter_lem : (v : VecDyn W) (ys : List A) → HoldsDyn t impls v ys → Dyn.iter v ≡ ok (map lent ys)
  unfolding Dyn.iter
  iter_lem v ys h =
      rw (byte_chunks_refines t h.holds, Dyn.iter, h.holds.same_type, h.table)
        (ap ok (map-map _ t.to_bytes ys))

  pub HoldsDyn-Reads : {v : VecDyn W} {ys : List A} → HoldsDyn t impls v ys → Reads v ys
  unfolding Dyn.len Typed.as_slice Typed.get_ref_as Dyn.get
  HoldsDyn-Reads {v} {ys} h = record {
    length_read = len-Holds p h.holds;
    slice_read = as_slice_refines p t h.holds;
    value_read = λ i. get_ref-eq-get p t h.holds i ∙ get-eq-get_elem? p t h.holds i;
    lent_value = λ i e. rw (
      debug_assert_index_lem p t h.holds i (get_elem?-lt ys i e),
      Dyn.get,
      get_bytes_refines p t h.holds i e,
      h.holds.same_type,
      h.table,
    );
    lent_values = iter_lem v ys h;
  }

module _ (p : Platform) {A B W : Type 0} (t : Repr A) (impls : Impls A W) (s : Repr B)
    (others : Impls B W) where
  -- Whatever calls of `push`, `push_value`, `push_cloned`, `append`, `resize`, `fill`,
  -- `rotate_left`, `rotate_right` and `clear` a `VecDyn` that holds `xs` goes through, and of
  -- `push`, `push_value`, `push_cloned`, `resize` and `fill` with values of another type, in any
  -- order, if none makes more than `isize::MAX` bytes and no rotation is by more than the number
  -- of elements: the calls return, the clones and drops are those of the list that the calls
  -- stand for, in order, and the buffer holds this list, which is what `len`, `as_slice`,
  -- `get_ref_as`, `get` and `iter` then read.
  pub run_observed :
      (cs : List (Call A B)) {v : VecDyn W} {xs : List A}
      → s.type_id ≢ t.type_id
      → HoldsDyn t impls v xs
      → Fits cs t.size_of (length xs)
      → (w : W)
      → let (ys, w') = after_all impls others cs xs w in
        (u : VecDyn W) × (run p t impls s others cs v w ≡ ok (u, w'))
        × HoldsDyn t impls u ys
        × Reads p t impls u ys
  run_observed cs differ h fits w =
      let (u, e, hu) = run_refines p t impls s others cs differ h fits w in
      (u, e, hu, HoldsDyn-Reads p t impls hu)
