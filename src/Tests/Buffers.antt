-- ===== src/Tests/Buffers.antt =====
-- `VecCopy`.
use buffer.Common.{◌*◌, ℕ, ◌^◌, ◌≡◌, refl, true, [], ◌∷◌, ◌++◌, ok, panic, arith, ◌>>=◌}
use buffer.VecCopy.Equality.{eq}
use buffer.VecCopy.Laws.Equality.{eq-Holds}
use buffer.Common.{◌↔◌}
use buffer.Bytes.{encode}
use buffer.Std.Vec.{vec}
use buffer.Tests.Inputs.{dev, release, pair, unit, pairs, buf, buf-Holds}
use buffer.VecCopy.Laws.Reach.{
  Reaches, here, after, rotated_left, extended_bytes, Reaches-IsValid, len-Reaches,
}
use buffer.Std.Slice.{rotate_left as slice_rotate_left}
use buffer.Std.Platform.{mul_usize}
use buffer.Std.Vec.{extend_from_slice, reserve}
use buffer.VecCopy.{len, VecCopy, rotate_left, rotate_right, extend_bytes}
use buffer.VecCopy.Build.{
  from_vec_non_copy, with_type, with_capacity, with_size, from_vec, from_slice,
}
use buffer.VecCopy.Access.{get}
use buffer.VecCopy.Update.{push, resize, copy_from_slice}
use buffer.VecCopy.Values.{iter_value_ref, from_iter}
use buffer.VecCopy.Holds.{Holds}
use buffer.VecCopy.Laws.Push.{push_refines, resize_refines}
use buffer.VecCopy.Laws.Constructors.{Makes, constructors_lem}
use buffer.VecCopy.Laws.Move.{first-rotate_right, rotate_left-wrap}
use buffer.VecCopy.Laws.Collect.{collect-iter_value_ref}
use buffer.VecCopy.Laws.Valid.{IsValid}

buf-IsValid : IsValid buf
buf-IsValid = omega arith

-- A buffer of single bytes.
abbrev other : VecCopy
other = record { items = vec (1 ∷ 2 ∷ []) 2; element_size = 1; element_type_id = 8 }

push_refines_example :
    (w : VecCopy) × (push dev pair buf (7, 8) ≡ ok (w, true)) × Holds pair w (pairs ++ (7, 8) ∷ [])
push_refines_example = push_refines dev pair (7, 8) buf-Holds (omega arith)

resize_refines_example :
    (w : VecCopy) × (resize release pair buf 4 (7, 8) ≡ ok (w, true))
    × Holds pair w (pairs ++ (7, 8) ∷ [])
resize_refines_example = resize_refines release pair 4 (7, 8) buf-Holds (omega arith)

rotate_right_example :
    (w : VecCopy) × (rotate_right dev buf 1 ≡ ok w) × (get dev pair w 0 ≡ get dev pair buf 2)
rotate_right_example = first-rotate_right dev pair 1 buf-Holds (omega arith) (omega arith)

rotate_left_wrap_example : rotate_left release buf (2 ^ 63) ≡ ok buf
rotate_left_wrap_example = rotate_left-wrap release buf 1 refl refl

constructors_lem_example :
    Makes pair (with_type pair) []
    × Makes pair (with_capacity dev pair 2) []
    × Makes pair (with_size dev pair 2 (7, 8)) ((7, 8) ∷ (7, 8) ∷ [])
    × Makes pair (from_vec dev pair (vec pairs 4)) pairs
    × Makes pair (from_slice dev pair pairs) pairs
    × Makes pair (copy_from_slice dev pair other pairs) pairs
constructors_lem_example =
    constructors_lem dev pair 2 (7, 8) pairs (vec pairs 4) other (omega arith) (omega arith)
      (omega arith) (omega arith) (omega arith)

-- No buffer of `()`.
unit_slice : from_slice dev unit (tt ∷ []) ≡ panic
unfolding from_slice from_vec from_vec_non_copy
unit_slice = refl

collect_example :
    (w : VecCopy) × ((iter_value_ref buf >>= from_iter dev 2) ≡ ok w) × Holds pair w pairs
collect_example =
    collect-iter_value_ref dev pair 2 (1, 2) ((3, 4) ∷ (5, 6) ∷ []) buf-Holds (omega arith)

-- `buf` turned by one element.
abbrev turned : VecCopy
turned = record buf { items = vec (3 ∷ 4 ∷ 5 ∷ 6 ∷ 1 ∷ 2 ∷ []) 6 }

-- The bytes of two more elements, which need a larger allocation.
abbrev longer : VecCopy
longer = record buf { items = vec (3 ∷ 4 ∷ 5 ∷ 6 ∷ 1 ∷ 2 ∷ 9 ∷ 9 ∷ 8 ∷ 8 ∷ []) 10 }

buf-turned : rotate_left dev buf 1 ≡ ok turned
unfolding rotate_left slice_rotate_left mul_usize
buf-turned = refl

turned-longer : extend_bytes dev turned (9 ∷ 9 ∷ 8 ∷ 8 ∷ []) ≡ ok (longer, true)
unfolding extend_bytes extend_from_slice reserve
turned-longer = refl

buf-longer : Reaches dev buf longer
buf-longer = after (rotated_left 1 buf-turned) (after (extended_bytes _ turned-longer) here)

Reaches-IsValid_example : IsValid longer
Reaches-IsValid_example = Reaches-IsValid dev buf-longer buf-IsValid

len-Reaches_example : (n : ℕ) × (len dev longer ≡ ok n) × (n * 2 ≡ 10)
len-Reaches_example = len-Reaches dev buf-IsValid buf-longer

-- Another buffer of pairs.
abbrev two_pairs : VecCopy
two_pairs = record { items = vec (1 ∷ 2 ∷ 3 ∷ 4 ∷ []) 9; element_size = 2; element_type_id = 16 }

two_pairs-Holds : Holds pair two_pairs ((1, 2) ∷ (3, 4) ∷ [])
unfolding encode
two_pairs-Holds = record {
  positive = omega arith;
  same_type = refl;
  same_size = refl;
  memory = refl;
  room = omega arith;
}

eq-Holds_example : (eq buf two_pairs ≡ true) ↔ (pairs ≡ (1, 2) ∷ (3, 4) ∷ [])
eq-Holds_example = eq-Holds buf-Holds two_pairs-Holds
