-- ===== src/VecDyn/Laws/Lent.antt =====
-- The type-erased mutable borrow of one element of a `VecDyn`, and what is written through it.
use buffer.Common.{
  ◌≡◌, refl, sym, ◌∙◌, ℕ, List, get_elem?, get_elem?-lt, set, some, ok, ◌>>=◌, ==-true,
}
use buffer.Common.Effects
use buffer.Common.Effects.{Eff, lift, pure}
use buffer.Common.Outcomes.{Outcome}
use buffer.Std.Platform.{Platform}
use buffer.Std.Slice.{swap_with_slice}
use buffer.Bytes.{Repr, RefMut}
use buffer.Traits.{Impls, build_vtable}
use buffer.Traits.Laws.{clone_from_bytes_lem}
use buffer.Value.{ValueMut, ValueRef, ref}
use buffer.Value.Exclusive
use buffer.Value.Laws.{borrowed}
use buffer.VecCopy.Laws.Erased.{get_bytes_mut_refines, debug_assert_index_lem}
use buffer.VecDyn as Dyn
use buffer.VecDyn.{VecDyn, with_data}
use buffer.VecDyn.Laws.{HoldsDyn}

module _ (p : Platform) {W : Type 0} where
  -- `v.get_mut(i).clone_from(value)`
  pub clone_from_at : VecDyn W → ℕ → ValueRef W → Eff W (VecDyn W)
  clone_from_at v i value =
      Effects.◌>>=◌ (lift (Dyn.get_mut p v i))
        (λ r. Effects.◌>>=◌ (Exclusive.clone_from r.value value) (λ m. pure (r.put m)))

  -- `v.get_mut(i).swap(&mut u.get_mut(j))`: both buffers after it.
  pub swap_at : VecDyn W → ℕ → VecDyn W → ℕ → Outcome (VecDyn W × VecDyn W)
  swap_at v i u j = do
    r ← Dyn.get_mut p v i
    q ← Dyn.get_mut p u j
    (a, b) ← Exclusive.swap r.value q.value
    ok (r.put a, q.put b)

  module _ {A : Type 0} (t : Repr A) (impls : Impls A W) where
    -- The mutable reference to a value, with the table of the buffer.
    abbrev lent_mut : A → ValueMut W
    lent_mut x = record {
      bytes = t.to_bytes x;
      type_id = t.type_id;
      vtable = ref (build_vtable t impls);
    }

    get_mut_keeps :
        {v : VecDyn W} {xs : List A} (i : ℕ) {x : A}
        → HoldsDyn t impls v xs
        → get_elem? xs i ≡ some x
        → (r : RefMut (ValueMut W) (VecDyn W)) × (Dyn.get_mut p v i ≡ ok r)
          × (r.value ≡ lent_mut x)
          × ((y : A) → HoldsDyn t impls (r.put (lent_mut y)) (set xs i y))
    unfolding Dyn.get_mut
    get_mut_keeps {v} {xs} i {x} h e =
        let (b, f, same, put) = get_bytes_mut_refines p t h.holds i e in
        (
          record { value = lent_mut x; put = λ (m : ValueMut W). with_data v (b.put m.bytes) },
          rw (
            debug_assert_index_lem p t h.holds i (get_elem?-lt xs i e),
            Dyn.get_mut,
            f,
            same,
            h.holds.same_type,
            h.table,
          ),
          refl,
          λ y. record { holds = put y; table = h.table },
        )

    -- The `clone_from` of a type-erased value, through the mutable reference to element `i` that
    -- `get_mut` of a `VecDyn` lends, of a value `y` of its type does what `clone_from` of the
    -- type does with the element and `y`, and the buffer then holds the result at `i` and
    -- otherwise the same elements.
    pub clone_from_at_keeps :
        {v : VecDyn W} {xs : List A} (i : ℕ) {x : A} (y : A)
        → HoldsDyn t impls v xs
        → get_elem? xs i ≡ some x
        → (w : W)
        → let (z, w') = impls.clone_from x y w in
          (u : VecDyn W) × (clone_from_at v i (borrowed t impls y) w ≡ ok (u, w'))
          × HoldsDyn t impls u (set xs i z)
    unfolding clone_from_at Exclusive.clone_from build_vtable
    clone_from_at_keeps i {x} y h e w =
        let (r, f, same, put) = get_mut_keeps i h e in
        (
          r.put (lent_mut (impls.clone_from x y w).0),
          rw (
            f,
            clone_from_at,
            same,
            ==-true t.type_id t.type_id refl,
            clone_from_bytes_lem t impls x y w,
          ),
          put (impls.clone_from x y w).0,
        )

    -- `swap` of the mutable references to an element of each of two `VecDyn`s of one type
    -- exchanges these elements, and leaves the others as they are; nothing is cloned or dropped.
    pub swap_at_keeps :
        {v u : VecDyn W} {xs ys : List A} (i j : ℕ) {x y : A}
        → HoldsDyn t impls v xs
        → HoldsDyn t impls u ys
        → get_elem? xs i ≡ some x
        → get_elem? ys j ≡ some y
        → (v' u' : VecDyn W) × (swap_at v i u j ≡ ok (v', u'))
          × HoldsDyn t impls v' (set xs i y)
          × HoldsDyn t impls u' (set ys j x)
    unfolding swap_at Exclusive.swap swap_with_slice
    swap_at_keeps i j {x} {y} h k e f =
        let (r, g, same, put) = get_mut_keeps i h e in
        let (q, g', same', put') = get_mut_keeps j k f in
        let as_long = ==-true _ _ (t.length-to_bytes x ∙ sym (t.length-to_bytes y)) in
        (
          r.put (lent_mut y),
          q.put (lent_mut x),
          rw (g, swap_at, g', same, same', ==-true t.type_id t.type_id refl, as_long),
          put y,
          put' x,
        )
