-- ===== src/VecCopy/Access.antt =====
-- Typed access to the elements of a `VecCopy` (src/lib.rs).
-- `ok none` is the `None` of a type that does not match.
use buffer.Common.{
  ℕ, ◌*◌, List, ◌++◌, Option, none, some, ltb, drop, Outcome, ok, assert, ◌>>=◌, ◌>>◌,
}
use buffer.Std.Platform.{Platform}
use buffer.Std.Vec.{vec}
use buffer.Bytes.{Repr, RefMut, encode, slice_from_raw_parts, read_at, write_at}
use buffer.VecCopy.{VecCopy, with_items, check_ref, check_mut, len}

module _ {A : Type 0} (t : Repr A) where
  -- Unsafe.
  unfoldable pub get_unchecked : VecCopy → ℕ → Outcome A
  get_unchecked v i = let ptr = v.items.items in read_at t ptr i

  -- It borrows the value that `get_unchecked` copies.
  unfoldable pub get_unchecked_ref : VecCopy → ℕ → Outcome A
  get_unchecked_ref v i = let ptr = v.items.items in read_at t ptr i

  unfoldable pub get_unchecked_mut : VecCopy → ℕ → Outcome (RefMut A VecCopy)
  get_unchecked_mut v i = do
    let ptr = v.items.items
    x ← read_at t ptr i
    ok (record { value = x; put = λ y. with_items v (vec (write_at t ptr i y) v.items.capacity) })

module _ (p : Platform) {A : Type 0} (t : Repr A) where
  unfoldable pub as_slice : VecCopy → Outcome (Option (List A))
  as_slice v = elim (check_ref t v) [
    | none ↦ ok none
    | some s ↦ do n ← len p v; xs ← slice_from_raw_parts t s.items.items n; ok (some xs)
  ]

  -- The owner, after a write of as many values, keeps what is behind them.
  unfoldable pub as_mut_slice : VecCopy → Outcome (Option (RefMut (List A) VecCopy))
  as_mut_slice v = elim (check_mut t v) [
    | none ↦ ok none
    | some s ↦ do
      n ← len p v
      xs ← slice_from_raw_parts t s.items.items n
      ok (
          some (record {
            value = xs;
            put = λ ys.
                with_items v
                  (vec (encode t ys ++ drop (n * t.size_of) v.items.items) v.items.capacity);
          }))
  ]

  -- An iterator over a slice is the slice.
  unfoldable pub iter : VecCopy → Outcome (Option (List A))
  iter v = as_slice v

  unfoldable pub iter_mut : VecCopy → Outcome (Option (RefMut (List A) VecCopy))
  iter_mut v = as_mut_slice v

  unfoldable pub get : VecCopy → ℕ → Outcome (Option A)
  get v i = do
    n ← len p v
    assert (ltb i n)
    elim (check_ref t v) [ none ↦ ok none | some s ↦ do x ← read_at t s.items.items i; ok (some x) ]

  -- `get_ref` borrows the value that `get` copies.
  unfoldable pub get_ref : VecCopy → ℕ → Outcome (Option A)
  get_ref v i = do
    n ← len p v
    assert (ltb i n)
    elim (check_ref t v) [ none ↦ ok none | some s ↦ do x ← read_at t s.items.items i; ok (some x) ]

  unfoldable pub get_mut : VecCopy → ℕ → Outcome (Option (RefMut A VecCopy))
  get_mut v i = do
    n ← len p v
    assert (ltb i n)
    elim (check_mut t v) [
      | none ↦ ok none
      | some s ↦ do
        x ← read_at t s.items.items i
        ok (
            some (record {
              value = x;
              put = λ y. with_items v (vec (write_at t v.items.items i y) v.items.capacity);
            }))
    ]
