-- ===== src/Bytes.antt =====
-- Conversions between values and bytes (src/bytes.rs).
-- A Rust type is given by its `TypeId`, its size and its representation in memory.
pub mod Laws
pub mod Counted
use buffer.Common.{
  ℕ, ◌*◌, ◌+◌, ◌≤◌, ◌≡◌, List, [], ◌∷◌, ◌++◌, map, Option, none, some, leb, ◌==◌, if◌then◌else◌,
  length, take, drop, Outcome, ok, undefined, assert, defined, ◌>>=◌, ◌>>◌,
}
use buffer.Std.Slice.{chunks, concat}

-- What the language says of a type `A`: two values have one representation only if they are equal,
-- and all representations are `size_of` bytes long. `read` has no value at bytes that represent
-- none. Padding is read as some fixed byte.
pub record Repr (A : Type 0) : Type 0 where
  pub type_id : ℕ
  pub size_of : ℕ
  pub to_bytes : A → List ℕ
  pub read : List ℕ → Option A
  pub length-to_bytes : (x : A) → length (to_bytes x) ≡ size_of
  pub read-to_bytes : (x : A) → read (to_bytes x) ≡ some x

-- A mutable borrow: the value behind it, and what its owner is after a write.
pub record RefMut (A S : Type 0) : Type 0 where
  pub value : A
  pub put : A → S

-- `slice::from_raw_parts(ptr, n)` for bytes, where `ptr` is the memory that can be read behind it.
unfoldable pub from_raw_parts : List ℕ → ℕ → Outcome (List ℕ)
from_raw_parts ptr n = if leb n (length ptr) then ok (take n ptr) else undefined

-- A read of each of the pieces.
abbrev pub read_all : {A : Type 0} → (List ℕ → Option A) → List (List ℕ) → Outcome (List A)
read_all read [] = ok []
read_all read (c ∷ cs) = do x ← defined (read c); xs ← read_all read cs; ok (x ∷ xs)

module _ {A : Type 0} (t : Repr A) where
  -- The memory of a sequence of values.
  unfoldable pub encode : List A → List ℕ
  unfolding concat
  encode xs = concat (map t.to_bytes xs)

  -- `slice::from_raw_parts(ptr as *const T, n)`
  unfoldable pub slice_from_raw_parts : List ℕ → ℕ → Outcome (List A)
  slice_from_raw_parts ptr n =
      if leb (n * t.size_of) (length ptr)
      then read_all t.read (chunks t.size_of n ptr)
      else undefined

  -- `*ptr.add(i)` for `ptr: *const T`
  unfoldable pub read_at : List ℕ → ℕ → Outcome A
  read_at ptr i =
      if leb (i * t.size_of + t.size_of) (length ptr)
      then defined (t.read (take t.size_of (drop (i * t.size_of) ptr)))
      else undefined

  -- `*ptr.add(i) = x`: the memory after it.
  unfoldable pub write_at : List ℕ → ℕ → A → List ℕ
  write_at ptr i x =
      take (i * t.size_of) ptr ++ (t.to_bytes x ++ drop (i * t.size_of + t.size_of) ptr)

  -- A pointer to a value: the memory behind it.
  unfoldable pub as_byte_ptr : A → List ℕ
  as_byte_ptr x = t.to_bytes x

  unfoldable pub from_byte_ptr : List ℕ → Outcome A
  unfolding read_at
  from_byte_ptr bytes = read_at bytes 0

  unfoldable pub from_byte_mut_ptr : List ℕ → Outcome (RefMut A (List ℕ))
  unfolding read_at write_at
  from_byte_mut_ptr bytes = do
    x ← read_at bytes 0
    ok (record { value = x; put = λ y. write_at bytes 0 y })

  unfoldable pub as_bytes : A → Outcome (List ℕ)
  unfolding as_byte_ptr from_raw_parts
  as_bytes x = from_raw_parts (as_byte_ptr x) t.size_of

  unfoldable pub as_bytes_mut : A → Outcome (RefMut (List ℕ) (Outcome A))
  unfolding as_byte_ptr from_raw_parts
  as_bytes_mut x = do
    bytes ← from_raw_parts (as_byte_ptr x) t.size_of
    ok (record { value = bytes; put = λ b. defined (t.read b) })

  unfoldable pub from_bytes : List ℕ → Outcome A
  unfolding from_byte_ptr
  from_bytes bytes = do assert (length bytes == t.size_of); from_byte_ptr bytes

  unfoldable pub from_bytes_mut : List ℕ → Outcome (RefMut A (List ℕ))
  unfolding from_byte_mut_ptr
  from_bytes_mut bytes = do assert (length bytes == t.size_of); from_byte_mut_ptr bytes

  -- A box is the memory that it owns. The same cast serves `Rc` and `Arc`.
  unfoldable pub box_into_box_bytes : A → Outcome (List ℕ)
  unfolding from_raw_parts
  box_into_box_bytes b = let byte_ptr = t.to_bytes b in from_raw_parts byte_ptr t.size_of

  unfoldable pub box_from_box_bytes : List ℕ → Outcome A
  unfolding read_at
  box_from_box_bytes b = read_at b 0

  -- `std::mem::transmute_copy` between `Self` and `usize`, behind the test of their sizes.
  module _ {U : Type 0} (usize : Repr U) where
    unfoldable pub try_into_usize : A → Outcome (Option U)
    try_into_usize x =
        if t.size_of == usize.size_of
        then (do u ← defined (usize.read (t.to_bytes x)); ok (some u))
        else ok none

    unfoldable pub try_from_usize : U → Outcome (Option A)
    try_from_usize b =
        if t.size_of == usize.size_of
        then (do x ← defined (t.read (usize.to_bytes b)); ok (some x))
        else ok none
