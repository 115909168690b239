-- ===== src/Cache/Laws/Loops.antt =====
-- The two loops of examples/cache.rs compared, and how often the second one computes a value.
use buffer.Common.{
  refl, true, Bool, arith, ◌≡◌, ◌≢◌, ℕ, ◌+◌, ◌*◌, ◌≤◌, List, [], map, length, ok, false, ◌||◌, sym,
  ◌∙◌,
}
use buffer.Std.Platform.{Platform, isize_max}
use buffer.Bytes.{Repr}
use buffer.Traits.{Impls}
use buffer.VecDyn.{VecDyn}
use buffer.VecDyn.Laws.{HoldsDyn}
use buffer.Cache.{
  Rng, RcOf, Ints, lookup, costly_computation_int, costly_computation_str, plain_loop, cached_loop,
}
use buffer.Cache.Laws.{PointsTo, seeds, advance, table, cloned_entries}
use buffer.Cache.Laws.Plain.{plain_loop_lem}
use buffer.Cache.Laws.Cached.{cached_loop_lem}
use buffer.Cache.Laws.Once.{
  is_some, contains, CountsNew, IsTable, cloned_entries-IsTable, cloned_entries_news,
  cloned_entries_keys,
}

module _ (p : Platform) {R P S T W : Type 0} (rng : Rng R) (ints : RcOf Ints P W)
    (strs : RcOf T S W) (target : P → Ints) (points : PointsTo ints target)
    (differ : strs.repr.type_id ≢ ints.repr.type_id) where
  or_false : (b : Bool) → (b || false) ≡ b
  or_false true = refl
  or_false false = refl

  -- The second loop of examples/cache.rs, run `n` times on an empty table and empty buffers,
  -- where `n` pointers take at most `isize::MAX` bytes, leaves a table with one entry for each
  -- seed that was drawn and for no other, which points to the value of the seed, and has made a
  -- pointer of a computed value as often as there are entries, where `Rc<String>` and `Rc<[u128;
  -- 3]>` have different `TypeId`s.
  pub cached_loop_computes_once :
      {news : W → ℕ}
      → CountsNew ints news
      → (n : ℕ) (r : R) {v u : VecDyn W} → HoldsDyn ints.repr ints.impls v []
      → HoldsDyn strs.repr strs.impls u []
      → n * ints.repr.size_of ≤ isize_max
      → (w : W)
      → (entries : List (ℕ × P)) × (v' : VecDyn W) × (w' : W) × (cached_loop p rng ints n r [] v u w
          ≡ ok ((advance rng n r, table ints entries, v', u), w'))
        × IsTable rng ints target entries
        × ((seed : ℕ) → is_some (lookup seed entries) ≡ contains seed (seeds rng n r))
        × (news w' ≡ news w + length entries)
  unfolding lookup
  cached_loop_computes_once count n r {v} {u} h k small w =
      let (qs, entries, w') = cloned_entries rng ints (seeds rng n r) [] w in
      let other : u.elements.element_type_id ≢ ints.repr.type_id =
        λ e. differ (sym k.holds.same_type ∙ e) in
      let (v', e, _) = cached_loop_lem p rng ints n r [] {u = u} h other (omega arith) w in
      (
        entries,
        v',
        w',
        e,
        (cloned_entries-IsTable rng ints target points (seeds rng n r) [] w tt).1,
        λ seed. cloned_entries_keys rng ints (seeds rng n r) [] w seed ∙ or_false _,
        omega (arith, cloned_entries_news rng ints target count (seeds rng n r) [] w),
      )

  module _ (collect : List ℕ → T) (plain_ints : Repr Ints) (ints_impls : Impls Ints W)
      (plain_strs : Repr T) (strs_impls : Impls T W) where
    -- Both loops of examples/cache.rs, run `n` times from the same generator on empty buffers,
    -- where `n` elements take at most `isize::MAX` bytes, return and leave the same generator;
    -- the first one leaves the computed integers and strings of the seeds in its buffers, in
    -- order, and the second one pointers to the same integers in its first buffer, and its
    -- buffer of strings as it was, with nothing in it, where `Rc<String>` and `Rc<[u128; 3]>`
    -- have different `TypeId`s.
    pub loops_agree :
        (n : ℕ) (r : R) {v u v_c u_c : VecDyn W}
        → HoldsDyn plain_ints ints_impls v []
        → HoldsDyn plain_strs strs_impls u []
        → HoldsDyn ints.repr ints.impls v_c []
        → HoldsDyn strs.repr strs.impls u_c []
        → n * plain_ints.size_of ≤ isize_max
        → n * plain_strs.size_of ≤ isize_max
        → n * ints.repr.size_of ≤ isize_max
        → (w : W)
        → let xs = map (costly_computation_int rng) (seeds rng n r) in
          let ys = map (costly_computation_str rng collect) (seeds rng n r) in
          (v' u' : VecDyn W) × (entries : List (ℕ × P)) × (v_c' : VecDyn W) × (w' : W) × (qs : List
            P)
          × (plain_loop p rng collect plain_ints ints_impls plain_strs strs_impls n r v u w
              ≡ ok ((advance rng n r, v', u'), w))
          × HoldsDyn plain_ints ints_impls v' xs
          × HoldsDyn plain_strs strs_impls u' ys
          × (cached_loop p rng ints n r [] v_c u_c w
              ≡ ok ((advance rng n r, table ints entries, v_c', u_c), w'))
          × HoldsDyn ints.repr ints.impls v_c' qs
          × (map target qs ≡ xs)
    loops_agree n r {v} {u} {v_c} {u_c} h k h_c k_c small small' small_c w =
        let (v', u', e, hv, hu) =
          plain_loop_lem p rng collect plain_ints ints_impls plain_strs strs_impls n r h k
            (omega arith) (omega arith) w in
        let (qs, entries, w') = cloned_entries rng ints (seeds rng n r) [] w in
        let other : u_c.elements.element_type_id ≢ ints.repr.type_id =
          λ e. differ (sym k_c.holds.same_type ∙ e) in
        let (v_c', e_c, h_c') =
          cached_loop_lem p rng ints n r [] {u = u_c} h_c other (omega arith) w in
        let (same, _) = cloned_entries-IsTable rng ints target points (seeds rng n r) [] w tt in
        (v', u', entries, v_c', w', qs, e, hv, hu, e_c, h_c', same)
