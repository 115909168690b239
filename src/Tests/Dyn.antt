-- ===== src/Tests/Dyn.antt =====
-- `VecDyn` and the type-erased values, on bytes whose clones and drops are logged.
use buffer.Common.{ℕ, ◌≡◌, ◌↔◌, refl, true, List, [], ◌∷◌, some, ok, ◌==◌, arith, eq_of_==, ==-true}
use buffer.Common.Effects.{lift, ◌>>=◌}
use buffer.Std.Vec.{vec}
use buffer.Bytes.{encode}
use buffer.Traits.{build_vtable}
use buffer.Value.Boxed
use buffer.Value.Laws.{borrowed, downcast-boxed}
use buffer.VecCopy.{VecCopy}
use buffer.Value.Shared.{clone_value}
use buffer.VecDyn.{VecDyn, drop_all, clone, eq, push_value, push_cloned}
use buffer.VecDyn.Typed.{resize}
use buffer.VecDyn.Laws.{HoldsDyn}
use buffer.VecDyn.Laws.Drops.{drop_all_refines}
use buffer.VecDyn.Laws.Lent.{clone_from_at, swap_at, clone_from_at_keeps, swap_at_keeps}
use buffer.VecDyn.Laws.Updates.{resize_keeps}
use buffer.VecDyn.Laws.Values.{push_cloned-push_value}
use buffer.VecDyn.Laws.Clones.{clone-drops_elements}
use buffer.VecDyn.Laws.Equality.{eq-same_length, eq-prefix}
use buffer.Tests.Worlds.{cloned, Event, dropped, logged, counted}
use buffer.Tests.Inputs.{dev, byte}

abbrev bytes : List ℕ → VecCopy
bytes xs = record { items = vec xs 4; element_size = 1; element_type_id = 8 }

abbrev logged_buf : List ℕ → VecDyn (List Event)
logged_buf xs = record { elements = bytes xs; vtable = build_vtable byte logged }

abbrev two : VecDyn (List Event)
two = logged_buf (1 ∷ 2 ∷ [])

abbrev three : VecDyn (List Event)
three = logged_buf (1 ∷ 2 ∷ 3 ∷ [])

two_holds : HoldsDyn byte logged two (1 ∷ 2 ∷ [])
unfolding encode
two_holds = record {
  holds = record {
    positive = omega arith;
    same_type = refl;
    same_size = refl;
    memory = refl;
    room = omega arith;
  };
  table = refl;
}

three_holds : HoldsDyn byte logged three (1 ∷ 2 ∷ 3 ∷ [])
unfolding encode
three_holds = record {
  holds = record {
    positive = omega arith;
    same_type = refl;
    same_size = refl;
    memory = refl;
    room = omega arith;
  };
  table = refl;
}

-- A buffer with the one owner of a counted value.
abbrev owner : VecDyn ℕ
owner = record { elements = bytes (7 ∷ []); vtable = build_vtable byte counted }

owner_holds : HoldsDyn byte counted owner (7 ∷ [])
unfolding encode
owner_holds = record {
  holds = record {
    positive = omega arith;
    same_type = refl;
    same_size = refl;
    memory = refl;
    room = omega arith;
  };
  table = refl;
}

drop_all_example : drop_all two [] ≡ ok (tt, dropped 2 ∷ dropped 1 ∷ [])
drop_all_example = drop_all_refines byte logged two_holds []

dyn_resize_example :
    (u : VecDyn (List Event)) × (resize dev byte logged three 1 9 []
      ≡ ok ((u, true), dropped 9 ∷ dropped 3 ∷ dropped 2 ∷ []))
    × HoldsDyn byte logged u (1 ∷ [])
dyn_resize_example = resize_keeps dev byte logged 1 9 three_holds (omega arith) []

push_cloned-push_value_example :
    (direct : VecDyn (List Event)) × (boxing : VecDyn (List Event)) × (after : List Event)
    × (push_cloned dev two (borrowed byte logged 9) [] ≡ ok ((direct, true), after))
    × ((clone_value (borrowed byte logged 9) >>= push_value dev two) []
        ≡ ok ((boxing, true), after))
    × HoldsDyn byte logged direct (1 ∷ 2 ∷ 9 ∷ [])
    × HoldsDyn byte logged boxing (1 ∷ 2 ∷ 9 ∷ [])
push_cloned-push_value_example = push_cloned-push_value dev byte logged 9 two_holds (omega arith) []

dyn_clone_example : (u : VecDyn ℕ) × (clone owner 1 ≡ ok (u, 1)) × HoldsDyn byte counted u (7 ∷ [])
dyn_clone_example = clone-drops_elements byte counted owner_holds (λ _ _ _. refl) 1

same_byte : (x y : ℕ) → ((x == y) ≡ true) ↔ (x ≡ y)
same_byte x y = (λ e. eq_of_== e, λ e. ==-true x y e)

eq_same_length_example : (eq two two ≡ ok true) ↔ (◌≡◌ {A = List ℕ} (1 ∷ 2 ∷ []) (1 ∷ 2 ∷ []))
eq_same_length_example = eq-same_length byte logged two_holds two_holds same_byte refl

eq_prefix_example : (eq two three ≡ ok true) × (eq three two ≡ ok true)
eq_prefix_example = eq-prefix byte logged (3 ∷ []) two_holds three_holds (λ x. ==-true x x refl)

box_downcast_example :
    (lift (Boxed.new byte logged 9) >>= Boxed.downcast byte) [] ≡ ok (some 9, dropped 9 ∷ [])
box_downcast_example = downcast-boxed byte logged 9 []

clone_from_at_keeps_example :
    (u : VecDyn (List Event)) × (clone_from_at dev three 1 (borrowed byte logged 9) []
      ≡ ok (u, dropped 2 ∷ cloned 9 ∷ []))
    × HoldsDyn byte logged u (1 ∷ 9 ∷ 3 ∷ [])
clone_from_at_keeps_example = clone_from_at_keeps dev byte logged 1 9 three_holds refl []

swap_at_keeps_example :
    (v u : VecDyn (List Event)) × (swap_at dev three 2 two 0 ≡ ok (v, u))
    × HoldsDyn byte logged v (1 ∷ 2 ∷ 1 ∷ [])
    × HoldsDyn byte logged u (3 ∷ 2 ∷ [])
swap_at_keeps_example = swap_at_keeps dev byte logged 2 0 three_holds two_holds refl refl
