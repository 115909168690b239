-- ===== src/Tests/Calls.antt =====
-- Calls of a `VecDyn` of bytes one after the other, whose clones and drops are logged.
use buffer.Common.{ℕ, ◌+◌, ◌≡◌, refl, List, map, [], ◌∷◌, ok, ◌==◌, if◌then◌else◌, arith}
use buffer.VecCopy.{VecCopy}
use buffer.VecCopy.Holds.{Holds}
use buffer.VecClone.Typed.{with_fns}
use buffer.VecClone.Laws.Calls as Cloning
use buffer.VecClone.Laws.Calls.{of_vec_dyn}
use buffer.VecClone.Laws.Calls.Steps.{run-of_vec_dyn}
use buffer.Bytes.{encode}
use buffer.Std.Vec.{vec}
use buffer.Traits.{build_vtable}
use buffer.VecDyn.{VecDyn}
use buffer.VecDyn.Laws.{HoldsDyn}
use buffer.VecDyn.Laws.Calls.{
  Call, push, push_cloned, resize, rotate_left, fill, append, push_other, fill_other, run,
  run_and_drop, Fits, after_all, after, size_after, turn,
}
use buffer.VecDyn.Laws.Calls.Observed.{Reads, run_observed}
use buffer.VecDyn.Laws.Calls.Owned.{Counts, run_and_drop_balance}
use buffer.Tests.Worlds.{Event, cloned, dropped, logged, logged_pairs}
use buffer.Tests.Inputs.{dev, byte, pair}

abbrev start : VecDyn (List Event)
start = record {
  elements = record { items = vec (9 ∷ 2 ∷ []) 4; element_size = 1; element_type_id = 8 };
  vtable = build_vtable byte logged;
}

start_holds : HoldsDyn byte logged start (9 ∷ 2 ∷ [])
unfolding encode
start_holds = record {
  holds = record {
    positive = omega arith;
    same_type = refl;
    same_size = refl;
    memory = refl;
    room = omega arith;
  };
  table = refl;
}

abbrev calls : List (Call ℕ (ℕ × ℕ))
calls =
    push 9
    ∷ push_cloned 5
    ∷ rotate_left 3
    ∷ push_other (9, 0)
    ∷ append (7 ∷ 9 ∷ [])
    ∷ resize 3 6
    ∷ fill 9
    ∷ fill_other (1, 1)
    ∷ []

calls_fit : Fits calls 1 2
unfolding Fits size_after turn
calls_fit = omega arith

run_observed_example :
    let (ys, w') = after_all logged logged_pairs calls (9 ∷ 2 ∷ []) [] in
    (u : VecDyn (List Event)) × (run dev byte logged pair logged_pairs calls start [] ≡ ok (u, w'))
    × HoldsDyn byte logged u ys
    × Reads dev byte logged u ys
run_observed_example =
    run_observed dev byte logged pair logged_pairs calls (λ e. absurd (omega arith)) start_holds
      calls_fit []

after_calls : (after_all logged logged_pairs calls (9 ∷ 2 ∷ []) []).0 ≡ 9 ∷ 9 ∷ 9 ∷ []
unfolding after_all after
after_calls = refl

-- How often 9 is cloned, and dropped.
abbrev nine : ℕ → ℕ
nine x = if x == 9 then 1 else 0

abbrev nines_made : List Event → ℕ
nines_made [] = 0
nines_made (cloned x ∷ w) = nines_made w + nine x
nines_made (dropped x ∷ w) = nines_made w

abbrev nines_dropped : List Event → ℕ
nines_dropped [] = 0
nines_dropped (cloned x ∷ w) = nines_dropped w
nines_dropped (dropped x ∷ w) = nines_dropped w + nine x

logged-Counts : Counts logged nine nines_made nines_dropped
logged-Counts = record {
  dropped-drop = λ x w. refl;
  made-drop = λ x w. refl;
  dropped-clone = λ x w. refl;
  made-clone = λ x w. refl;
}

logged_pairs-Counts : Counts logged_pairs (λ y. nine y.0) nines_made nines_dropped
logged_pairs-Counts = record {
  dropped-drop = λ x w. refl;
  made-drop = λ x w. refl;
  dropped-clone = λ x w. refl;
  made-clone = λ x w. refl;
}

-- One is in the buffer, and four are given away: with `push`, `push` at the other type, `append`
-- and `fill`.
run_and_drop_balance_example :
    (w' : List Event) × (run_and_drop dev byte logged pair logged_pairs calls start []
      ≡ ok (tt, w'))
    × (nines_dropped w' + 0 ≡ 0 + nines_made w' + 1 + 4)
run_and_drop_balance_example =
    run_and_drop_balance dev byte logged pair logged_pairs nine (λ y. nine y.0) logged-Counts
      logged_pairs-Counts calls (λ e. absurd (omega arith)) start_holds calls_fit []

-- The calls that a `VecClone` has too.
abbrev shared_calls : List (Cloning.Call ℕ (ℕ × ℕ))
shared_calls =
    Cloning.push 9
    ∷ Cloning.rotate_right 1
    ∷ Cloning.append (7 ∷ [])
    ∷ Cloning.push_other (4, 0)
    ∷ Cloning.resize 6 3
    ∷ []

shared_calls_fit : Fits (map of_vec_dyn shared_calls) 1 2
unfolding Fits size_after turn
shared_calls_fit = omega arith

run-of_vec_dyn_example :
    (u : VecCopy) × (v' : VecDyn (List Event)) × (ys : List ℕ) × (w_calls w_end : List Event)
    × (Cloning.run dev byte logged pair logged_pairs shared_calls
          (with_fns byte logged start.elements)
          []
        ≡ ok (with_fns byte logged u, w_calls))
    × (run dev byte logged pair logged_pairs (map of_vec_dyn shared_calls) start []
        ≡ ok (v', w_calls))
    × Holds byte u ys
    × HoldsDyn byte logged v' ys
    × (Cloning.run_and_drop dev byte logged pair logged_pairs shared_calls
          (with_fns byte logged start.elements)
          []
        ≡ ok (tt, w_end))
    × (run_and_drop dev byte logged pair logged_pairs (map of_vec_dyn shared_calls) start []
        ≡ ok (tt, w_end))
run-of_vec_dyn_example =
    run-of_vec_dyn dev byte logged pair logged_pairs shared_calls (λ e. absurd (omega arith))
      start_holds.holds start_holds shared_calls_fit []
