-- ===== src/Tests/Inputs.antt =====
-- The platforms, the element types and the buffers of the tests.
use native.Mathlib.Nat.{mul-div_left}
use buffer.Bytes.Laws.{read_all-map, chunks-encode, length-encode}
use buffer.Std.Slice.{chunks}
use buffer.VecCopy.Convert.{Reinterpret}
use buffer.Common.{
  ◌/◌, ◌>>=◌, length, ok, Outcome, ℕ, ◌≤◌, ◌≡◌, refl, true, false, List, [], ◌∷◌, Option, none,
  some, arith,
}
use buffer.Std.Platform.{Platform, isize_max}
use buffer.Std.Vec.{Vec, vec}
use buffer.Bytes.{read_all, Repr, encode}
use buffer.VecCopy.{VecCopy}
use buffer.VecCopy.Holds.{Holds}

pub exact_fit : (n m : ℕ) → m ≤ m
exact_fit n m = omega arith

pub exact_bound : (n m : ℕ) → m ≤ isize_max → m ≤ isize_max
exact_bound n m h = h

-- A development build whose vectors grow to just what is needed.
abbrev pub dev : Platform
dev = record { debug = true; grow = λ _ m. m; grow_enough = exact_fit; grow_bounded = exact_bound }

abbrev pub release : Platform
release = record dev { debug = false }

abbrev read_byte : List ℕ → Option ℕ
read_byte [] = none
read_byte (b ∷ bs) = some b

-- One byte.
abbrev pub byte : Repr ℕ
byte = record {
  type_id = 8;
  size_of = 1;
  to_bytes = λ b. b ∷ [];
  read = read_byte;
  length-to_bytes = λ b. refl;
  read-to_bytes = λ b. refl;
}

abbrev read_pair : List ℕ → Option (ℕ × ℕ)
read_pair (a ∷ b ∷ bs) = some (a, b)
read_pair _ = none

-- Two bytes.
abbrev pub pair : Repr (ℕ × ℕ)
pair = record {
  type_id = 16;
  size_of = 2;
  to_bytes = λ x. x.0 ∷ x.1 ∷ [];
  read = read_pair;
  length-to_bytes = λ x. refl;
  read-to_bytes = λ x. refl;
}

pub unit-tt : (x : Unit {0}) → some tt ≡ some x
unit-tt tt = refl

-- Zero-sized.
abbrev pub unit : Repr (Unit {0})
unit = record {
  type_id = 0;
  size_of = 0;
  to_bytes = λ _. [];
  read = λ _. some tt;
  length-to_bytes = λ x. refl;
  read-to_bytes = unit-tt;
}

abbrev pub pairs : List (ℕ × ℕ)
pairs = (1, 2) ∷ (3, 4) ∷ (5, 6) ∷ []

-- The buffer of these values.
abbrev pub buf : VecCopy
buf = record { items = vec (1 ∷ 2 ∷ 3 ∷ 4 ∷ 5 ∷ 6 ∷ []) 6; element_size = 2; element_type_id = 16 }

pub buf-Holds : Holds pair buf pairs
unfolding encode
buf-Holds = record {
  positive = omega arith;
  same_type = refl;
  same_size = refl;
  memory = refl;
  room = omega arith;
}

reread : List ℕ → Outcome (List (ℕ × ℕ))
reread bs = read_all pair.read (chunks 2 (length bs / 2) bs)

reread-encode : (xs : List (ℕ × ℕ)) → reread (encode pair xs) ≡ ok xs
unfolding reread
reread-encode xs =
    let whole : length (encode pair xs) / 2 ≡ length xs =
      rw (length-encode pair xs) (mul-div_left (length xs) (omega arith)) in
    rw (whole, chunks-encode pair xs) (read_all-map pair xs)

-- A `reinterpret_vec` that reads the pairs back.
abbrev reread_vec : Vec ℕ → Outcome (Vec (ℕ × ℕ))
reread_vec v = do xs ← reread v.items; ok (vec xs (v.capacity / 2))

pub pair_reinterpret : Reinterpret pair
pair_reinterpret = record {
  reinterpret_vec = reread_vec;
  reinterpret_slice = reread;
  reinterpret_vec-encode = λ xs n h. rw (reread-encode xs);
  reinterpret_slice-encode = reread-encode;
}
