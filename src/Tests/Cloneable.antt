-- ===== src/Tests/Cloneable.antt =====
-- `VecClone` and its values, on bytes whose clones and drops are logged.
use buffer.Common.Effects.{◌>>=◌}
use buffer.Common.{panic, ◌==◌, if◌then◌else◌, none}
use buffer.Std.Rc.{Heap}
use buffer.CloneValue.RcValue.{RcValue, downcast}
use buffer.CloneValue.ArcValue
use buffer.CloneValue.RcValue.Laws.{
  value, Reaches, made, cloned, clone-IsShared, new-IsShared, drop_times, drop_times-Reaches,
  IsShared, downcast-IsShared,
}
use buffer.CloneValue.ArcValue.Laws.{drop-new}
use buffer.Tests.Inputs.{byte, pair}
use buffer.Tests.Worlds.{logged, dropped}
use buffer.Common.{◌==◌, panic, if◌then◌else◌, some, none, ℕ, ◌≡◌, refl, List, [], ◌∷◌, ok, arith}
use buffer.Std.Vec.{vec}
use buffer.VecCopy.{VecCopy}
use buffer.VecCopy.Holds.{Holds}
use buffer.VecClone.{VecClone, drop_all, clone, from_vec_copy}
use buffer.VecClone.Laws.{clone-from_vec_copy}
use buffer.Bytes.{encode}
use buffer.Tests.Worlds.{Event}
use buffer.Tests.Inputs.{byte, pair, pairs, buf, buf-Holds}

abbrev one_byte : VecCopy
one_byte = record { items = vec (1 ∷ []) 4; element_size = 1; element_type_id = 8 }

one_byte-Holds : Holds byte one_byte (1 ∷ [])
unfolding encode
one_byte-Holds = record {
  positive = omega arith;
  same_type = refl;
  same_size = refl;
  memory = refl;
  room = omega arith;
}

clone_from_vec_copy_example :
    (u : VecClone (List Event)) × (clone (from_vec_copy buf) [] ≡ ok (u, []))
    × Holds pair u.elements pairs
    × (drop_all u [] ≡ ok (tt, []))
clone_from_vec_copy_example = clone-from_vec_copy pair buf-Holds []

-- The byte 7 at address 0, with so many pointers to it.
abbrev heap : ℕ → Heap (List Event)
heap strong = record {
  counts = λ p. if p == 0 then some (record { strong = strong; bytes = 7 ∷ [] }) else none;
  world = [];
}

abbrev seven : RcValue (List Event)
seven = value byte logged 0 7 []

-- Made and cloned: two are left.
twice_shared : (h' : Heap (List Event)) × Reaches byte logged 0 7 [] (heap 1) 2 h'
twice_shared =
    let (h', e, _) = clone-IsShared byte logged 0 7 [] 0 (heap 1) (refl, refl) in
    (h', cloned (made (new-IsShared byte logged 0 7 [] (heap 1) refl)) e)

drop_times-Reaches_example :
    (end : Heap (List Event)) × (drop_times byte logged 0 7 [] 2 twice_shared.0 ≡ ok (tt, end))
    × (end.counts 0 ≡ none)
    × (end.world ≡ dropped 7 ∷ [])
drop_times-Reaches_example = drop_times-Reaches byte logged 0 7 (heap 1) refl twice_shared.1

downcast-IsShared_example :
    (h' : Heap (List Event)) × (downcast byte seven (heap 1) ≡ ok (some 0, h'))
    × IsShared byte logged 0 7 [] 0 h'
downcast-IsShared_example = downcast-IsShared byte logged 0 7 byte 0 (heap 1) refl

-- A pair at address 0, where the pointer type is taken to be a byte.
abbrev pair_heap : Heap (List Event)
pair_heap = record {
  counts = λ p. if p == 0 then some (record { strong = 1; bytes = 1 ∷ 2 ∷ [] }) else none;
  world = [];
}

drop-new_example : (ArcValue.new pair byte logged 0 >>= ArcValue.drop) pair_heap ≡ panic
drop-new_example = drop-new pair byte logged 0 (1, 2) pair_heap refl (omega arith)
