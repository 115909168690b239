-- ===== src/Tests/Conversions.antt =====
-- Vectors and slices of pairs turned into buffers, whose clones and drops are logged, and the hash of
-- buffers.
use buffer.Common.{◌≡◌, ◌↔◌, true, List, [], ◌∷◌, some, ok, ◌>>=◌, arith}
use buffer.Std.Vec.{vec}
use buffer.VecCopy.{VecCopy}
use buffer.VecCopy.Holds.{Holds}
use buffer.VecDyn.{VecDyn}
use buffer.VecDyn.Laws.{HoldsDyn}
use buffer.VecClone.{VecClone, from_vec_copy}
use buffer.VecClone.Equality.{Addresses, eq, hash}
use buffer.VecClone.Laws.Hash.{hash-eq_and_addresses}
use buffer.VecClone.Typed.{with_fns}
use buffer.Conversions.{
  vec_copy_from, vec_copy_into, vec_copy_from_ref, vec_dyn_from, vec_dyn_into, vec_dyn_from_ref,
  vec_clone_from, vec_clone_into, vec_clone_from_ref,
}
use buffer.Conversions.Laws.{into-from, from_ref_clones}
use buffer.Tests.Worlds.{Event, cloned, logged_pairs}
use buffer.Tests.Inputs.{dev, pair, pairs, pair_reinterpret, buf}

into-from_example :
    ((vec_copy_from dev pair (vec pairs 5) >>= vec_copy_into pair_reinterpret)
      ≡ ok (some (vec pairs 5)))
    × ((vec_dyn_from pair logged_pairs dev (vec pairs 5) >>= vec_dyn_into pair_reinterpret)
        ≡ ok (some (vec pairs 5)))
    × ((vec_clone_from pair logged_pairs dev (vec pairs 5) >>= vec_clone_into pair_reinterpret)
        ≡ ok (some (vec pairs 5)))
into-from_example =
    into-from dev pair logged_pairs (omega arith) pair_reinterpret (vec pairs 5) (omega arith)
      (omega arith)

abbrev log : List Event
log = cloned 5 ∷ cloned 3 ∷ cloned 1 ∷ []

from_ref_clones_example :
    (c : VecCopy) × (v : VecDyn (List Event)) × (d : VecCopy) × (vec_copy_from_ref dev pair pairs
      ≡ ok c)
    × (vec_dyn_from_ref pair logged_pairs dev pairs [] ≡ ok (v, log))
    × (vec_clone_from_ref pair logged_pairs dev pairs [] ≡ ok (with_fns pair logged_pairs d, log))
    × Holds pair c pairs
    × HoldsDyn pair logged_pairs v pairs
    × Holds pair d pairs
from_ref_clones_example = from_ref_clones dev pair logged_pairs (omega arith) pairs (omega arith) []

abbrev somewhere : Addresses (List Event)
somewhere = record { clone_at = λ _. 100; clone_from_at = λ _. 200; drop_at = λ _. 300 }

abbrev plain : VecClone (List Event)
plain = from_vec_copy buf

abbrev typed : VecClone (List Event)
typed = with_fns pair logged_pairs buf

hash-eq_and_addresses_example : (hash somewhere plain [] ≡ hash somewhere typed []) ↔ (
    (eq plain typed ≡ true)
    × (somewhere.clone_at plain.clone_fn ≡ somewhere.clone_at typed.clone_fn)
    × (somewhere.clone_from_at plain.clone_from_fn ≡ somewhere.clone_from_at typed.clone_from_fn)
    × (somewhere.drop_at plain.drop_fn ≡ somewhere.drop_at typed.drop_fn))
hash-eq_and_addresses_example = hash-eq_and_addresses somewhere plain typed []
