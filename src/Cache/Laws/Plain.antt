-- ===== src/Cache/Laws/Plain.antt =====
-- The loop of examples/cache.rs that computes each value.
use buffer.Common.{
  arith, ◌≡◌, refl, ℕ, zero, suc, ◌+◌, ◌*◌, ◌≤◌, List, ◌++◌, map, length, ok, append-nil,
  append_assoc,
}
use buffer.Std.Platform.{Platform, isize_max}
use buffer.Bytes.{Repr}
use buffer.Traits.{Impls}
use buffer.VecCopy.Holds.{byte_length}
use buffer.VecDyn.{VecDyn}
use buffer.VecDyn.Laws.{HoldsDyn}
use buffer.VecDyn.Laws.Updates.{push_keeps}
use buffer.Cache.{Rng, Ints, costly_computation_int, costly_computation_str, plain_loop}
use buffer.Cache.Laws.{seeds, advance, room_behind}

module _ (p : Platform) {R T W : Type 0} (rng : Rng R) (collect : List ℕ → T) (ints : Repr Ints)
    (ints_impls : Impls Ints W) (strs : Repr T) (strs_impls : Impls T W) where
  pub plain_loop_lem :
      (n : ℕ) (r : R) {v u : VecDyn W} {xs : List Ints} {ys : List T}
      → HoldsDyn ints ints_impls v xs
      → HoldsDyn strs strs_impls u ys
      → (length xs + n) * ints.size_of ≤ isize_max
      → (length ys + n) * strs.size_of ≤ isize_max
      → (w : W)
      → (v' u' : VecDyn W) × (plain_loop p rng collect ints ints_impls strs strs_impls n r v u w
          ≡ ok ((advance rng n r, v', u'), w))
        × HoldsDyn ints ints_impls v' (xs ++ map (costly_computation_int rng) (seeds rng n r))
        × HoldsDyn strs strs_impls u'
            (ys ++ map (costly_computation_str rng collect) (seeds rng n r))
  unfolding plain_loop
  plain_loop_lem zero r {v} {u} h k small small' w = (v, u, refl, rw append-nil h, rw append-nil k)
  plain_loop_lem (suc n) r {v} {u} {xs} {ys} h k small small' w =
      let seed = (rng.gen_u8 r).0 in
      let x = costly_computation_int rng seed in
      let y = costly_computation_str rng collect seed in
      let (v', e, hv) = push_keeps p ints ints_impls x h (grind (arith, byte_length h.holds)) w in
      let (u', f, hu) = push_keeps p strs strs_impls y k (grind (arith, byte_length k.holds)) w in
      let (v_end, u_end, g, hv', hu') =
        plain_loop_lem n (rng.gen_u8 r).1 hv hu (room_behind xs x n ints.size_of small)
          (room_behind ys y n strs.size_of small') w in
      (v_end, u_end, rw (e, plain_loop, f) (rw g), rw append_assoc at hv', rw append_assoc at hu')
