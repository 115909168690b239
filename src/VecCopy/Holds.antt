-- ===== src/VecCopy/Holds.antt =====
-- When a `VecCopy` holds a sequence of typed values, and what follows for its length and its type
-- check.
use native.Mathlib.Nat.{mul-div_left, mul-mod_left}
use buffer.Common.{
  [], ap₂, sym, ◌+◌, ℕ, ◌++◌, length-append, ◌*◌, ◌/◌, ◌%◌, ◌<◌, ◌≡◌, ◌≢◌, ap, ◌∙◌, List, none,
  some, length, ok, arith,
}
use buffer.Std.Platform.{Platform}
use buffer.Std.Vec.Laws.{Capacity}
use buffer.Bytes.{Repr, encode}
use buffer.Bytes.Laws.{encode-append, encode-nil, length-encode}
use buffer.Std.Vec.{vec}
use buffer.VecCopy.{with_items, VecCopy, check_ref, check, check_mut, len}

-- `v` is a buffer of the values `xs` of type `T`: the bytes are those of the values, one after the
-- other. A vector's allocation is at most `isize::MAX` bytes.
pub record Holds {A : Type 0} (t : Repr A) (v : VecCopy) (xs : List A) : Type 0 where
  pub positive : 0 < t.size_of
  pub same_type : v.element_type_id ≡ t.type_id
  pub same_size : v.element_size ≡ t.size_of
  pub memory : v.items.items ≡ encode t xs
  pub room : Capacity (length v.items.items) v.items.capacity

module _ {A : Type 0} {t : Repr A} {v : VecCopy} {xs : List A} where
  pub byte_length : Holds t v xs → length v.items.items ≡ length xs * t.size_of
  byte_length h = ap length h.memory ∙ length-encode t xs

  pub div_length : Holds t v xs → length v.items.items / v.element_size ≡ length xs
  div_length h = rw (h.same_size, byte_length h) (mul-div_left (length xs) h.positive)

  mod_length : Holds t v xs → length v.items.items % v.element_size ≡ 0
  mod_length h = rw (h.same_size, byte_length h) (mul-mod_left (length xs) t.size_of)

  pub len-Holds : (p : Platform) → Holds t v xs → len p v ≡ ok (length xs)
  unfolding len
  len-Holds p h = ground (arith, div_length h, mod_length h)

  pub check_ref-Holds : Holds t v xs → check_ref t v ≡ some v
  unfolding check_ref
  check_ref-Holds h = ground arith

  pub check-Holds : Holds t v xs → check t v ≡ some v
  unfolding check
  check-Holds h = ground arith

  pub check_mut-Holds : Holds t v xs → check_mut t v ≡ some v
  unfolding check_mut
  check_mut-Holds h = ground arith

module _ {A : Type 0} (t : Repr A) (v : VecCopy) (differ : t.type_id ≢ v.element_type_id) where
  pub check_ref-mismatch : check_ref t v ≡ none
  unfolding check_ref
  check_ref-mismatch = ground arith

  pub check-mismatch : check t v ≡ none
  unfolding check
  check-mismatch = ground arith

  pub check_mut-mismatch : check_mut t v ≡ none
  unfolding check_mut
  check_mut-mismatch = ground arith

-- New values behind the old ones.
pub append-Holds :
    {A : Type 0} {t : Repr A} {v : VecCopy} {xs : List A} (ys : List A) {bs : List ℕ} (n : ℕ)
    → Holds t v xs
    → bs ≡ encode t ys
    → Capacity (length v.items.items + length bs) n
    → Holds t (with_items v (vec (v.items.items ++ bs) n)) (xs ++ ys)
append-Holds {t = t} {v = v} {xs = xs} ys {bs} n h e c = record {
  positive = h.positive;
  same_type = h.same_type;
  same_size = h.same_size;
  memory = ap₂ ◌++◌ h.memory e ∙ sym (encode-append t xs ys);
  room = rw (length-append v.items.items bs) c;
}

-- No values in the same allocation.
pub clear-Holds :
    {A : Type 0} {t : Repr A} {v : VecCopy} {xs : List A}
    → Holds t v xs
    → Holds t (with_items v (vec [] v.items.capacity)) []
clear-Holds {t = t} h = record {
  positive = h.positive;
  same_type = h.same_type;
  same_size = h.same_size;
  memory = sym (encode-nil t);
  room = record { enough = omega arith; allocatable = h.room.allocatable };
}
