-- ===== src/Cache/Laws/Ends.antt =====
-- The end of the program of examples/cache.rs: what it has made is dropped.
use buffer.Common.{
  arith, ◌≡◌, ◌≢◌, refl, sym, ◌∙◌, ℕ, ◌+◌, ◌*◌, ◌≤◌, ◌<◌, List, [], ◌∷◌, map, ok, inl, inr,
}
use buffer.Common.Effects.{◌>>=◌}
use buffer.Std.Platform.{Platform, isize_max}
use buffer.Bytes.{Repr}
use buffer.Traits.{Impls}
use buffer.Elements.Laws.{drop_values}
use buffer.Value.Laws.{drop-boxed}
use buffer.VecDyn.Laws.Fresh.{with_type_keeps}
use buffer.VecDyn.Laws.Drops.{drop_all_refines}
use buffer.VecDyn.Laws.Calls.Owned.{Counts, total, drop_values_counts}
use buffer.Cache.{
  Rng, RcOf, Ints, lookup, costly_computation_int, costly_computation_str, plain_block,
  cached_block, main, iterations, drop_entries, seeded,
}
use buffer.Cache.Laws.{
  Option-cases, seeds, advance, table, entry, entry_hit, entry_miss, cloned_entries,
}
use buffer.Cache.Laws.Plain.{plain_loop_lem}
use buffer.Cache.Laws.Cached.{cached_loop_lem}

-- `Rc::new` makes a pointer, and drops none.
pub record CountsMade {A P W : Type 0} (rc : RcOf A P W) (weight : P → ℕ) (made dropped : W → ℕ)
    : Type 0 where
  pub made-new : (x : A) (w : W) → made (rc.new x w).1 ≡ made w + weight (rc.new x w).0
  pub dropped-new : (x : A) (w : W) → dropped (rc.new x w).1 ≡ dropped w

-- Values in which there are no pointers: to drop them neither makes nor drops one.
abbrev pub HasNone : {A W : Type 0} → Impls A W → (made dropped : W → ℕ) → Type 0
HasNone {A} {W} impls made dropped =
    (x : A) (w : W) → (made (impls.drop x w) ≡ made w) × (dropped (impls.drop x w) ≡ dropped w)

abbrev pointers : {P : Type 0} → List (ℕ × P) → List P
pointers [] = []
pointers ((_, q) ∷ entries) = q ∷ pointers entries

-- A buffer of `n` such values can be allocated.
abbrev pub HasRoom : {A : Type 0} → Repr A → ℕ → Type 0
HasRoom t n = (0 < t.size_of) × (n * t.size_of ≤ isize_max)

module _ {A W : Type 0} (impls : Impls A W) {made dropped : W → ℕ}
    (has_none : HasNone impls made dropped) where
  drop_values_none :
      (xs : List A) (w : W)
      → (made (drop_values impls xs w) ≡ made w) × (dropped (drop_values impls xs w) ≡ dropped w)
  drop_values_none [] w = (refl, refl)
  drop_values_none (x ∷ xs) w = omega (arith, drop_values_none xs (impls.drop x w), has_none x w)

module _ {R P W : Type 0} (rng : Rng R) (ints : RcOf Ints P W) where
  drop_entries_lem :
      (entries : List (ℕ × P)) (w : W)
      → drop_entries (table ints entries) w ≡ ok (tt, drop_values ints.impls (pointers entries) w)
  unfolding drop_entries
  drop_entries_lem [] w = refl
  drop_entries_lem ((k, q) ∷ entries) w =
      rw (drop-boxed ints.repr ints.impls q w, drop_entries) (drop_entries_lem entries _)

  module _ (weight : P → ℕ) {made dropped : W → ℕ} (count : Counts ints.impls weight made dropped)
      (count_new : CountsMade ints weight made dropped) where
    entry_counts :
        (seed : ℕ) (entries : List (ℕ × P)) (w : W)
        → let (q, entries', w') = entry rng ints seed entries w in
          (dropped w' ≡ dropped w)
          × (made w' + total weight (pointers entries) ≡ made w + total weight (pointers entries'))
    entry_counts seed entries w = elim (Option-cases (lookup seed entries)) [
      | inl (q, e) ↦ rw (entry_hit rng ints seed entries w e) (omega arith)
      | inr e ↦
          let x = costly_computation_int rng seed in
          rw (entry_miss rng ints seed entries w e)
            (omega (arith, count_new.made-new x w, count_new.dropped-new x w))
    ]

    cloned_entries_counts :
        (js : List ℕ) (entries : List (ℕ × P)) (w : W)
        → let (qs, entries', w') = cloned_entries rng ints js entries w in
          (dropped w' ≡ dropped w)
          × (made w' + total weight (pointers entries)
              ≡ made w + total weight qs + total weight (pointers entries'))
    unfolding cloned_entries
    cloned_entries_counts [] entries w = omega arith
    cloned_entries_counts (seed ∷ js) entries w =
        let (q, entries', w') = entry rng ints seed entries w in
        omega (
          arith,
          entry_counts seed entries w,
          count.dropped-clone q w',
          count.made-clone q w',
          cloned_entries_counts js entries' (ints.impls.clone q w').1,
        )

module _ (p : Platform) {R P S T W : Type 0} (rng : Rng R) (ints : RcOf Ints P W)
    (strs : RcOf T S W) (differ : strs.repr.type_id ≢ ints.repr.type_id) (weight : P → ℕ)
    {made dropped : W → ℕ} (count : Counts ints.impls weight made dropped)
    (count_new : CountsMade ints weight made dropped) where
  cached_block_balance :
      (n : ℕ) (r : R)
      → HasRoom ints.repr n
      → 0 < strs.repr.size_of
      → (w : W)
      → (w' : W) × (cached_block p rng ints strs n r w ≡ ok (tt, w'))
        × (dropped w' + made w ≡ dropped w + made w')
  unfolding cached_block
  cached_block_balance n r (pos, small) pos' w =
      let (v, e, hv) = with_type_keeps p ints.repr ints.impls pos in
      let (u, f, hu) = with_type_keeps p strs.repr strs.impls pos' in
      let other : u.elements.element_type_id ≢ ints.repr.type_id =
        λ g. differ (sym hu.holds.same_type ∙ g) in
      let (qs, entries, w1) = cloned_entries rng ints (seeds rng n r) [] w in
      let (v', g, hv') = cached_loop_lem p rng ints n r [] {u = u} hv other (omega arith) w in
      let w2 = drop_values ints.impls qs w1 in
      (
        drop_values ints.impls (pointers entries) w2,
        rw (
          e,
          f,
          cached_block,
          g,
          drop_all_refines strs.repr strs.impls hu w1,
          drop_all_refines ints.repr ints.impls hv' w1,
          drop_entries_lem rng ints entries w2,
        ),
        omega (
          arith,
          cloned_entries_counts rng ints weight count count_new (seeds rng n r) [] w,
          drop_values_counts ints.impls weight count qs w1,
          drop_values_counts ints.impls weight count (pointers entries) w2,
        ),
      )

  module _ (collect : List ℕ → T) (plain_ints : Repr Ints) (ints_impls : Impls Ints W)
      (plain_strs : Repr T) (strs_impls : Impls T W) where
    plain_block_lem :
        (n : ℕ) (r : R)
        → HasRoom plain_ints n
        → HasRoom plain_strs n
        → (w : W)
        → plain_block p rng collect plain_ints ints_impls plain_strs strs_impls n r w
          ≡ ok (
            advance rng n r,
            drop_values ints_impls (map (costly_computation_int rng) (seeds rng n r)) (
                drop_values strs_impls
                  (map (costly_computation_str rng collect) (seeds rng n r))
                  w),
          )
    unfolding plain_block
    plain_block_lem n r (pos, small) (pos', small') w =
        let (v, e, hv) = with_type_keeps p plain_ints ints_impls pos in
        let (u, f, hu) = with_type_keeps p plain_strs strs_impls pos' in
        let (v', u', g, hv', hu') =
          plain_loop_lem p rng collect plain_ints ints_impls plain_strs strs_impls n r hv hu
            (omega arith) (omega arith) w in
        rw (
          e,
          f,
          plain_block,
          g,
          drop_all_refines plain_strs strs_impls hu' w,
          drop_all_refines plain_ints ints_impls hv' _,
        )

    module _ (none_ints : HasNone ints_impls made dropped)
        (none_strs : HasNone strs_impls made dropped) where
      blocks_balance :
          (n : ℕ) (r : R)
          → HasRoom plain_ints n
          → HasRoom plain_strs n
          → HasRoom ints.repr n
          → 0 < strs.repr.size_of
          → (w : W)
          → (w' : W) × ((plain_block p rng collect plain_ints ints_impls plain_strs strs_impls n r
                  >>= cached_block p rng ints strs n)
                w
              ≡ ok (tt, w'))
            × (dropped w' + made w ≡ dropped w + made w')
      blocks_balance n r room_ints room_strs room pos w =
          let xs = map (costly_computation_int rng) (seeds rng n r) in
          let ys = map (costly_computation_str rng collect) (seeds rng n r) in
          let w1 = drop_values strs_impls ys w in
          let w2 = drop_values ints_impls xs w1 in
          let (w', e, same) = cached_block_balance n (advance rng n r) room pos w2 in
          (
            w',
            rw (plain_block_lem n r room_ints room_strs w) e,
            omega (
              arith,
              same,
              drop_values_none strs_impls none_strs ys w,
              drop_values_none ints_impls none_ints xs w1,
            ),
          )

      -- `main` of examples/cache.rs ends without a panic, and as many pointers have then been
      -- dropped as were made by `Rc::new` and by clones, counted by any weight, where 50000
      -- elements of the types take at most `isize::MAX` bytes, none is zero-sized, `Rc<String>`
      -- and `Rc<[u128; 3]>` have different `TypeId`s, and to drop a `[u128; 3]` or a `String`
      -- neither makes nor drops such a pointer.
      pub main_drops_all :
          HasRoom plain_ints iterations
          → HasRoom plain_strs iterations
          → HasRoom ints.repr iterations
          → 0 < strs.repr.size_of
          → (w : W)
          → (w' : W) × (main p rng ints strs collect plain_ints ints_impls plain_strs strs_impls w
              ≡ ok (tt, w'))
            × (dropped w' + made w ≡ dropped w + made w')
      unfolding main
      main_drops_all room_ints room_strs room pos w =
          blocks_balance iterations (seeded rng 3) room_ints room_strs room pos w
