-- ===== src/Tests/Cache.antt =====
-- The program of examples/cache.rs with a small generator, in a world that counts pointers.
use buffer.Common.{
  ℕ, ◌+◌, ◌%◌, ◌<◌, sym, ◌≡◌, refl, List, [], ◌∷◌, map, length, ok, Option, some, none, arith, ◌==◌,
  true,
}
use buffer.Common.Outcomes
use buffer.DynDerive.Config.{default}
use buffer.Bytes.{Repr}
use buffer.Bytes.Laws.{encode-nil}
use buffer.Std.Vec.{vec}
use buffer.Traits.{Impls, build_vtable}
use buffer.VecDyn.{VecDyn}
use buffer.VecDyn.Laws.{HoldsDyn}
use buffer.VecDyn.Laws.Calls.Owned.{Counts}
use buffer.DynDerive.Items.{construct_dyn_items, new_ident, has_impls_of, has_impl, last, fns_of}
use buffer.DynDerive.KnownTraits.{vtable_of, recognize, fn_name}
use buffer.Cache.{
  Rng, RcOf, Ints, lookup, costly_computation_int, costly_computation_str, plain_loop, cached_loop,
  main, ht_value,
}
use buffer.Cache.Laws.{PointsTo, advance, table}
use buffer.Cache.Laws.Once.{CountsNew, IsTable, is_some, contains}
use buffer.Cache.Laws.Loops.{cached_loop_computes_once, loops_agree}
use buffer.Cache.Laws.Ends.{CountsMade, main_drops_all}
use buffer.Tests.Inputs.{dev, byte}

-- The first byte of the seed.
abbrev first : List ℕ → ℕ
first [] = 0
first (b ∷ bs) = b

-- It counts up, and its bytes are 0 and 1 in turn.
abbrev toy : Rng ℕ
toy = record {
  from_seed = first;
  gen_u8 = λ r. (r % 2, r + 1);
  gen_u128 = λ r. (r, r + 1);
  next_alphanumeric = λ r. (r, r + 1);
}

abbrev read_three : List ℕ → Option Ints
read_three (a ∷ b ∷ c ∷ _) = some (a, b, c)
read_three _ = none

abbrev three : Repr Ints
three = record {
  type_id = 24;
  size_of = 3;
  to_bytes = λ x. x.0 ∷ x.1 ∷ x.2 ∷ [];
  read = read_three;
  length-to_bytes = λ x. refl;
  read-to_bytes = λ x. refl;
}

-- How often a pointer has been made of a value, made at all, and dropped.
abbrev Tally : Type 0
Tally = ℕ × ℕ × ℕ

abbrev owned_ints : Impls Ints Tally
owned_ints = record {
  drop = λ x w. w;
  clone = λ x w. (x, w);
  clone_from = λ old x w. (x, w);
  eq = λ x y. x.0 == y.0;
  hash = λ x state. x.0 ∷ state;
}

abbrev owned_strs : Impls ℕ Tally
owned_strs = record {
  drop = λ x w. w;
  clone = λ x w. (x, w);
  clone_from = λ old x w. (x, w);
  eq = λ x y. x == y;
  hash = λ x state. x ∷ state;
}

-- A pointer is what it counted_ints-PointsTo to.
abbrev counted_ints : RcOf Ints Ints Tally
counted_ints = record {
  repr = record three { type_id = 25 };
  impls = record owned_ints {
    drop = λ x w. (w.0, w.1, w.2 + 1);
    clone = λ x w. (x, (w.0, w.1 + 1, w.2));
  };
  new = λ x w. (x, (w.0 + 1, w.1 + 1, w.2));
}

abbrev counted_strs : RcOf ℕ ℕ Tally
counted_strs = record {
  repr = record byte { type_id = 9 };
  impls = owned_strs;
  new = λ x w. (x, w);
}

module _ {A W : Type 0} (t : Repr A) (impls : Impls A W) where
  abbrev empty : VecDyn W
  empty = record {
    elements = record { items = vec [] 0; element_size = t.size_of; element_type_id = t.type_id };
    vtable = build_vtable t impls;
  }

  empty_holds : 0 < t.size_of → HoldsDyn t impls empty []
  empty_holds pos = record {
    holds = record {
      positive = pos;
      same_type = refl;
      same_size = refl;
      memory = sym (encode-nil t);
      room = omega arith;
    };
    table = refl;
  }

abbrev int_rcs : VecDyn Tally
int_rcs = empty counted_ints.repr counted_ints.impls

abbrev str_rcs : VecDyn Tally
str_rcs = empty counted_strs.repr counted_strs.impls

int_rcs_holds : HoldsDyn counted_ints.repr counted_ints.impls int_rcs []
int_rcs_holds = empty_holds counted_ints.repr counted_ints.impls (omega arith)

str_rcs_holds : HoldsDyn counted_strs.repr counted_strs.impls str_rcs []
str_rcs_holds = empty_holds counted_strs.repr counted_strs.impls (omega arith)

counted_ints-PointsTo : PointsTo counted_ints (λ x. x)
counted_ints-PointsTo = record { target-new = λ x w. refl; target-clone = λ q w. refl }

counted_ints-CountsNew : CountsNew counted_ints (λ w. w.0)
counted_ints-CountsNew = record { news-new = λ x w. refl; news-clone = λ q w. refl }

counted_ints-Counts : Counts counted_ints.impls (λ _. 1) (λ w. w.1) (λ w. w.2)
counted_ints-Counts = record {
  dropped-drop = λ x w. refl;
  made-drop = λ x w. refl;
  dropped-clone = λ x w. refl;
  made-clone = λ x w. refl;
}

counted_ints-CountsMade : CountsMade counted_ints (λ _. 1) (λ w. w.1) (λ w. w.2)
counted_ints-CountsMade = record { made-new = λ x w. refl; dropped-new = λ x w. refl }

-- The seeds 1, 0 and 1.
cached_loop_computes_once_example :
    (entries : List (ℕ × Ints)) × (v' : VecDyn Tally) × (w' : Tally) × (cached_loop dev toy
        counted_ints 3 1 [] int_rcs str_rcs
        (0, 0, 0)
      ≡ ok ((advance toy 3 1, table counted_ints entries, v', str_rcs), w'))
    × IsTable toy counted_ints (λ x. x) entries
    × ((seed : ℕ) → is_some (lookup seed entries) ≡ contains seed (1 ∷ 0 ∷ 1 ∷ []))
    × (w'.0 ≡ 0 + length entries)
cached_loop_computes_once_example =
    cached_loop_computes_once dev toy counted_ints counted_strs (λ x. x) counted_ints-PointsTo
      (λ e. absurd (omega arith)) counted_ints-CountsNew 3 1 int_rcs_holds str_rcs_holds
      (omega arith) (0, 0, 0)

loops_agree_example :
    let xs = map (costly_computation_int toy) (1 ∷ 0 ∷ 1 ∷ []) in
    let ys = map (costly_computation_str toy length) (1 ∷ 0 ∷ 1 ∷ []) in
    (v' u' : VecDyn Tally) × (entries : List (ℕ × Ints)) × (v_c' : VecDyn Tally) × (w' : Tally)
    × (qs : List Ints) × (plain_loop dev toy length three owned_ints byte owned_strs 3 1
          (empty three owned_ints)
          (empty byte owned_strs)
          (0, 0, 0)
        ≡ ok ((advance toy 3 1, v', u'), (0, 0, 0)))
    × HoldsDyn three owned_ints v' xs
    × HoldsDyn byte owned_strs u' ys
    × (cached_loop dev toy counted_ints 3 1 [] int_rcs str_rcs (0, 0, 0)
        ≡ ok ((advance toy 3 1, table counted_ints entries, v_c', str_rcs), w'))
    × HoldsDyn counted_ints.repr counted_ints.impls v_c' qs
    × (map (λ x. x) qs ≡ xs)
loops_agree_example =
    loops_agree dev toy counted_ints counted_strs (λ x. x) counted_ints-PointsTo
      (λ e. absurd (omega arith)) length three owned_ints byte owned_strs 3 1
      (empty_holds three owned_ints (omega arith)) (empty_holds byte owned_strs (omega arith))
      int_rcs_holds str_rcs_holds (omega arith) (omega arith) (omega arith) (0, 0, 0)

main_drops_all_example :
    (w' : Tally) × (main dev toy counted_ints counted_strs length three owned_ints byte owned_strs
        (0, 0, 0)
      ≡ ok (tt, w'))
    × (w'.2 + 0 ≡ 0 + w'.1)
main_drops_all_example =
    main_drops_all dev toy counted_ints counted_strs (λ e. absurd (omega arith)) (λ _. 1)
      counted_ints-Counts counted_ints-CountsMade length three owned_ints byte owned_strs
      (λ x w. (refl, refl)) (λ x w. (refl, refl)) (omega arith) (omega arith) (omega arith)
      (omega arith) (0, 0, 0)

-- The functions that are declared for the table of `HTValue`.
fns_of_ht_value :
    Outcomes.◌>>=◌
      (construct_dyn_items (λ _. true) ht_value (record default { dyn_crate_name = "data_buffer" }))
      (λ items. ok items.fns_defs)
    ≡ ok (
        "from_bytes" ∷ "from_bytes_mut" ∷ "as_bytes" ∷ "box_into_box_bytes" ∷ "clone_fn"
        ∷ "clone_from_fn" ∷ "clone_into_raw_fn" ∷ "eq_fn" ∷ "hash_fn" ∷ "fmt_fn" ∷ [])
unfolding construct_dyn_items new_ident vtable_of recognize has_impls_of has_impl last fns_of
    fn_name
fns_of_ht_value = refl
