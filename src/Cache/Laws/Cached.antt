-- ===== src/Cache/Laws/Cached.antt =====
-- The loop of examples/cache.rs that clones the values of a table.
use buffer.Common.{
  arith, ◌≡◌, ◌≢◌, refl, ℕ, zero, suc, ◌+◌, ◌*◌, ◌≤◌, List, [], ◌∷◌, ◌++◌, length, ok, none, some,
  false, inl, inr, append-nil, append_assoc, ==-true,
}
use buffer.Std.Platform.{Platform, isize_max}
use buffer.Value.Boxed
use buffer.Value.Laws.{boxed, borrowed, new-boxed}
use buffer.VecCopy.Holds.{byte_length}
use buffer.VecDyn as Dyn
use buffer.VecDyn.{VecDyn}
use buffer.VecDyn.Laws.{HoldsDyn}
use buffer.VecDyn.Laws.Values.{push_cloned_keeps}
use buffer.Cache.{Rng, RcOf, Ints, lookup, or_insert_with, make_value, cached_loop}
use buffer.Cache.Laws.{
  seeds, advance, table, entry, entry_hit, entry_miss, cloned_entries, Option-cases, room_behind,
}

module _ (p : Platform) {R P W : Type 0} (rng : Rng R) (ints : RcOf Ints P W) where
  lookup-table_some :
      (k : ℕ) (entries : List (ℕ × P)) (q : P)
      → lookup k entries ≡ some q
      → lookup k (table ints entries) ≡ some (boxed ints.repr ints.impls q)
  unfolding lookup
  lookup-table_some k [] q e = cc
  lookup-table_some k ((j, r) ∷ entries) q e = ground (arith, lookup-table_some k entries q)

  lookup-table_none :
      (k : ℕ) (entries : List (ℕ × P))
      → lookup k entries ≡ none
      → lookup k (table ints entries) ≡ none
  unfolding lookup
  lookup-table_none k [] e = refl
  lookup-table_none k ((j, r) ∷ entries) e = ground (arith, lookup-table_none k entries)

  lookup-entry :
      (seed : ℕ) (entries : List (ℕ × P)) (w : W)
      → let (q, entries', _) = entry rng ints seed entries w in lookup seed entries' ≡ some q
  unfolding lookup
  lookup-entry seed entries w = elim (Option-cases (lookup seed entries)) [
    | inl (q, e) ↦ rw (entry_hit rng ints seed entries w e) e
    | inr e ↦ rw (entry_miss rng ints seed entries w e, ==-true seed seed refl)
  ]

  or_insert_with_hit :
      (seed : ℕ) (entries : List (ℕ × P)) (q : P) (w : W)
      → lookup seed entries ≡ some q
      → or_insert_with (table ints entries) seed (make_value rng ints seed) w
        ≡ ok ((boxed ints.repr ints.impls q, table ints entries), w)
  unfolding or_insert_with
  or_insert_with_hit seed entries q w e = rw (lookup-table_some seed entries q e, or_insert_with)

  or_insert_with_lem :
      (seed : ℕ) (entries : List (ℕ × P)) (w : W)
      → let (q, entries', w') = entry rng ints seed entries w in
        or_insert_with (table ints entries) seed (make_value rng ints seed) w
        ≡ ok ((boxed ints.repr ints.impls q, table ints entries'), w')
  unfolding or_insert_with make_value
  or_insert_with_lem seed entries w = elim (Option-cases (lookup seed entries)) [
    | inl (q, e) ↦ rw (entry_hit rng ints seed entries w e) (or_insert_with_hit seed entries q w e)
    | inr e ↦ rw (
      entry_miss rng ints seed entries w e,
      or_insert_with,
      lookup-table_none seed entries e,
      make_value,
      new-boxed ints.repr ints.impls,
    )
  ]

  -- The table of a reference is read in the same way, borrowed or owned.
  push_cloned-as_ref :
      (v : VecDyn W) (q : P)
      → Dyn.push_cloned p v (Boxed.as_ref (boxed ints.repr ints.impls q))
        ≡ Dyn.push_cloned p v (borrowed ints.repr ints.impls q)
  unfolding Dyn.push_cloned
  push_cloned-as_ref v q = refl

  push_cloned-other :
      (u : VecDyn W) (q : P) (w : W)
      → u.elements.element_type_id ≢ ints.repr.type_id
      → Dyn.push_cloned p u (Boxed.as_ref (boxed ints.repr ints.impls q)) w ≡ ok ((u, false), w)
  unfolding Dyn.push_cloned
  push_cloned-other u q w differ = ground arith

  pub cached_loop_lem :
      (n : ℕ) (r : R) (entries : List (ℕ × P)) {v u : VecDyn W} {xs : List P}
      → HoldsDyn ints.repr ints.impls v xs
      → u.elements.element_type_id ≢ ints.repr.type_id
      → (length xs + n) * ints.repr.size_of ≤ isize_max
      → (w : W)
      → let (qs, entries', w') = cloned_entries rng ints (seeds rng n r) entries w in
        (v' : VecDyn W) × (cached_loop p rng ints n r (table ints entries) v u w
          ≡ ok ((advance rng n r, table ints entries', v', u), w'))
        × HoldsDyn ints.repr ints.impls v' (xs ++ qs)
  unfolding cached_loop cloned_entries
  cached_loop_lem zero r entries {v} h differ small w = (v, refl, rw append-nil h)
  cached_loop_lem (suc n) r entries {v} {u} {xs} h differ small w =
      let seed = (rng.gen_u8 r).0 in
      let (q, entries', w') = entry rng ints seed entries w in
      let (q', w'') = ints.impls.clone q w' in
      let (v', e, hv) =
        push_cloned_keeps p ints.repr ints.impls q h (grind (arith, byte_length h.holds)) w' in
      let (v_end, g, h_end) =
        cached_loop_lem n (rng.gen_u8 r).1 entries' {u = u} hv differ
          (room_behind xs q' n ints.repr.size_of small) w'' in
      (
        v_end,
        rw
            (
              or_insert_with_lem seed entries w,
              cached_loop,
              push_cloned-as_ref v q,
              e,
              or_insert_with_hit seed entries' q w'' (lookup-entry seed entries w),
              push_cloned-other u q w'' differ,
            )
            (rw g),
        rw append_assoc at h_end,
      )
