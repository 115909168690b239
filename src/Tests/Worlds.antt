-- ===== src/Tests/Worlds.antt =====
-- Worlds in which clones and drops can be seen.
use buffer.Common.{ℕ, ◌+◌, ◌-◌, List, ◌∷◌, ◌==◌}
use buffer.Traits.{Impls}

pub data Event : Type 0 where
  cloned : ℕ → Event
  dropped : ℕ → Event

-- The newest event stands first.
abbrev pub logged : Impls ℕ (List Event)
logged = record {
  drop = λ x w. dropped x ∷ w;
  clone = λ x w. (x, cloned x ∷ w);
  clone_from = λ old x w. (x, dropped old ∷ cloned x ∷ w);
  eq = λ x y. x == y;
  hash = λ x state. x ∷ state;
}

-- Pairs whose drops are logged by their first part.
abbrev pub logged_pairs : Impls (ℕ × ℕ) (List Event)
logged_pairs = record {
  drop = λ x w. dropped x.0 ∷ w;
  clone = λ x w. (x, cloned x.0 ∷ w);
  clone_from = λ old x w. (x, dropped old.0 ∷ cloned x.0 ∷ w);
  eq = λ x y. x.0 == y.0;
  hash = λ x state. x.0 ∷ state;
}

-- A value that is counted by reference: the world is the count.
abbrev pub counted : Impls ℕ ℕ
counted = record {
  drop = λ x count. count - 1;
  clone = λ x count. (x, count + 1);
  clone_from = λ old x count. (x, count + 1 - 1);
  eq = λ x y. x == y;
  hash = λ x state. x ∷ state;
}
