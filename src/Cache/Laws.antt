-- ===== src/Cache/Laws.antt =====
-- What the loops of examples/cache.rs come to: the seeds that are drawn, and the pointers that are
-- made, kept and cloned.
pub mod Plain
pub mod Cached
pub mod Once
pub mod Loops
pub mod Ends
use buffer.Std.Platform.{isize_max}
use buffer.Common.{
  refl, inl, inr, ◌⊎◌, length-append, arith, ◌++◌, ◌≤◌, ◌*◌, ◌+◌, length, ℕ, zero, suc, ◌≡◌, List,
  [], ◌∷◌, map, Option, none, some,
}
use buffer.Value.{BoxValue}
use buffer.Value.Laws.{boxed}
use buffer.Cache.{Rng, RcOf, HashMap, Ints, lookup, costly_computation_int}

module _ {R : Type 0} (rng : Rng R) where
  -- The first `n` seeds, and the generator after them.
  abbrev pub seeds : ℕ → R → List ℕ
  seeds zero r = []
  seeds (suc n) r = let (seed, r') = rng.gen_u8 r in seed ∷ seeds n r'

  abbrev pub advance : ℕ → R → R
  advance zero r = r
  advance (suc n) r = advance n (rng.gen_u8 r).1

-- What a pointer points to, which does not change: that of a new one is the value that it is made
-- of, and that of a clone is that of the original.
pub record PointsTo {A P W : Type 0} (rc : RcOf A P W) (target : P → A) : Type 0 where
  pub target-new : (x : A) (w : W) → target (rc.new x w).0 ≡ x
  pub target-clone : (q : P) (w : W) → target (rc.impls.clone q w).0 ≡ target q

module _ {A P W : Type 0} (rc : RcOf A P W) where
  -- A table of the values that the pointers are in.
  abbrev pub table : List (ℕ × P) → HashMap W
  table [] = []
  table ((k, q) ∷ entries) = (k, boxed rc.repr rc.impls q) ∷ table entries

module _ {R P W : Type 0} (rng : Rng R) (ints : RcOf Ints P W) where
  -- The pointer for a seed, of which the value is computed if there is no entry yet.
  pub entry : ℕ → List (ℕ × P) → W → P × List (ℕ × P) × W
  entry seed entries w = elim (lookup seed entries) [
    | some q ↦ (q, entries, w)
    | none ↦
        let (q, w') = ints.new (costly_computation_int rng seed) w in (q, (seed, q) ∷ entries, w')
  ]

  pub entry_hit :
      (seed : ℕ) (entries : List (ℕ × P)) {q : P} (w : W)
      → lookup seed entries ≡ some q
      → entry seed entries w ≡ (q, entries, w)
  unfolding entry
  entry_hit seed entries w e = rw (e, entry)

  pub entry_miss :
      (seed : ℕ) (entries : List (ℕ × P)) (w : W)
      → lookup seed entries ≡ none
      → let (q, w') = ints.new (costly_computation_int rng seed) w in
        entry seed entries w ≡ (q, (seed, q) ∷ entries, w')
  unfolding entry
  entry_miss seed entries w e = rw (e, entry)

  -- For each seed a clone of its pointer: the clones, the entries after them, and the world.
  pub cloned_entries : List ℕ → List (ℕ × P) → W → List P × List (ℕ × P) × W
  cloned_entries [] entries w = ([], entries, w)
  cloned_entries (seed ∷ rest) entries w =
      let (q, entries', w') = entry seed entries w in
      let (q', w'') = ints.impls.clone q w' in
      let (qs, entries'', w_end) = cloned_entries rest entries' w'' in (q' ∷ qs, entries'', w_end)

-- The room for `n` more values, when one of them has been put behind the others.
pub room_behind {ℓ} :
    {A : Type ℓ} (xs : List A) (x : A) (n size : ℕ)
    → (length xs + suc n) * size ≤ isize_max
    → (length (xs ++ x ∷ []) + n) * size ≤ isize_max
room_behind xs x n size small = rw length-append (grind arith)

pub Option-cases {ℓ} : {A : Type ℓ} (o : Option A) → ((a : A) × (o ≡ some a)) ⊎ (o ≡ none)
Option-cases none = inr refl
Option-cases (some a) = inl (a, refl)
