-- ===== src/Cache/Laws/Once.antt =====
-- What the table of examples/cache.rs holds: each value is computed once.
use buffer.Common.{
  arith, ◌≡◌, refl, ℕ, ◌+◌, List, [], ◌∷◌, map, length, Option, none, some, inl, inr, ◌==◌, Bool,
  true, false, ◌||◌, Bool-cases, eq_of_==,
}
use buffer.Cache.{Rng, RcOf, Ints, lookup, costly_computation_int}
use buffer.Cache.Laws.{PointsTo, Option-cases, entry, entry_hit, entry_miss, cloned_entries}

abbrev pub is_some {ℓ} : {A : Type ℓ} → Option A → Bool
is_some none = false
is_some (some _) = true

abbrev pub contains : ℕ → List ℕ → Bool
contains k [] = false
contains k (j ∷ js) = j == k || contains k js

-- How often a pointer has been made of a value.
pub record CountsNew {A P W : Type 0} (rc : RcOf A P W) (news : W → ℕ) : Type 0 where
  pub news-new : (x : A) (w : W) → news (rc.new x w).1 ≡ news w + 1
  pub news-clone : (q : P) (w : W) → news (rc.impls.clone q w).1 ≡ news w

module _ {R P W : Type 0} (rng : Rng R) (ints : RcOf Ints P W) (target : P → Ints) where
  -- There is one entry for a seed, and it points to the value for this seed.
  abbrev pub IsTable : List (ℕ × P) → Type 0
  IsTable [] = Unit {0}
  IsTable ((k, q) ∷ entries) =
      (target q ≡ costly_computation_int rng k) × (lookup k entries ≡ none) × IsTable entries

  target-lookup :
      (k : ℕ) (entries : List (ℕ × P)) (q : P)
      → IsTable entries
      → lookup k entries ≡ some q
      → target q ≡ costly_computation_int rng k
  unfolding lookup
  target-lookup k [] q h e = cc
  target-lookup k ((j, r) ∷ entries) q h e = ground (arith, target-lookup k entries q h.2)

  module _ (points : PointsTo ints target) where
    entry-IsTable :
        (seed : ℕ) (entries : List (ℕ × P)) (w : W)
        → IsTable entries
        → let (q, entries', w') = entry rng ints seed entries w in
          (target q ≡ costly_computation_int rng seed) × IsTable entries'
    entry-IsTable seed entries w h = elim (Option-cases (lookup seed entries)) [
      | inl (q, e) ↦ rw (entry_hit rng ints seed entries w e) (target-lookup seed entries q h e, h)
      | inr e ↦
          let fresh = points.target-new (costly_computation_int rng seed) w in
          rw (entry_miss rng ints seed entries w e) (fresh, (fresh, e, h))
    ]

    pub cloned_entries-IsTable :
        (js : List ℕ) (entries : List (ℕ × P)) (w : W)
        → IsTable entries
        → let (qs, entries', w') = cloned_entries rng ints js entries w in
          (map target qs ≡ map (costly_computation_int rng) js) × IsTable entries'
    unfolding cloned_entries
    cloned_entries-IsTable [] entries w h = (refl, h)
    cloned_entries-IsTable (seed ∷ js) entries w h =
        let (q, entries', w') = entry rng ints seed entries w in
        let (same, h') = entry-IsTable seed entries w h in
        let (rest, h_end) = cloned_entries-IsTable js entries' (ints.impls.clone q w').1 h' in
        (rw (points.target-clone q w', same, rest), h_end)

  module _ {news : W → ℕ} (count : CountsNew ints news) where
    entry_news :
        (seed : ℕ) (entries : List (ℕ × P)) (w : W)
        → let (q, entries', w') = entry rng ints seed entries w in
          news w' + length entries ≡ news w + length entries'
    entry_news seed entries w = elim (Option-cases (lookup seed entries)) [
      | inl (q, e) ↦ rw (entry_hit rng ints seed entries w e)
      | inr e ↦
          rw (entry_miss rng ints seed entries w e)
            (omega (arith, count.news-new (costly_computation_int rng seed) w))
    ]

    pub cloned_entries_news :
        (js : List ℕ) (entries : List (ℕ × P)) (w : W)
        → let (qs, entries', w') = cloned_entries rng ints js entries w in
          news w' + length entries ≡ news w + length entries'
    unfolding cloned_entries
    cloned_entries_news [] entries w = refl
    cloned_entries_news (seed ∷ js) entries w =
        let (q, entries', w') = entry rng ints seed entries w in
        omega (
          arith,
          entry_news seed entries w,
          count.news-clone q w',
          cloned_entries_news js entries' (ints.impls.clone q w').1,
        )

module _ {R P W : Type 0} (rng : Rng R) (ints : RcOf Ints P W) where
  known :
      (seed : ℕ) (entries : List (ℕ × P)) (k : ℕ) (q : P)
      → lookup seed entries ≡ some q
      → is_some (lookup k entries) ≡ (seed == k || is_some (lookup k entries))
  known seed entries k q e = elim (Bool-cases (seed == k)) [
    | inl same ↦ rw (same, ← eq_of_== {a = seed} {b = k} same, e)
    | inr other ↦ rw other
  ]

  entry_keys :
      (seed : ℕ) (entries : List (ℕ × P)) (w : W) (k : ℕ)
      → let (q, entries', w') = entry rng ints seed entries w in
        is_some (lookup k entries') ≡ (seed == k || is_some (lookup k entries))
  unfolding lookup
  entry_keys seed entries w k = elim (Option-cases (lookup seed entries)) [
    | inl (q, e) ↦ rw (entry_hit rng ints seed entries w e) (known seed entries k q e)
    | inr e ↦ rw (entry_miss rng ints seed entries w e) (ground arith)
  ]

  pub cloned_entries_keys :
      (js : List ℕ) (entries : List (ℕ × P)) (w : W) (k : ℕ)
      → let (qs, entries', w') = cloned_entries rng ints js entries w in
        is_some (lookup k entries') ≡ (contains k js || is_some (lookup k entries))
  unfolding cloned_entries
  cloned_entries_keys [] entries w k = refl
  cloned_entries_keys (seed ∷ js) entries w k =
      let (q, entries', w') = entry rng ints seed entries w in
      ground (
        arith,
        entry_keys seed entries w k,
        cloned_entries_keys js entries' (ints.impls.clone q w').1 k,
      )
