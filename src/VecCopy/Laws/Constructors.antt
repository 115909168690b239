-- ===== src/VecCopy/Laws/Constructors.antt =====
-- What the constructors of `VecCopy` do at every type, zero-sized ones too.
use buffer.Common.{
  ℕ, ◌*◌, ◌≤◌, ◌<◌, ◌≡◌, refl, List, [], length, replicate, ok, panic, arith, ==-true, Outcome, ◌⊎◌,
  inl, inr, zero, suc,
}
use buffer.Std.Platform.{Platform, isize_max}
use buffer.Std.Vec.{Vec}
use buffer.Std.Vec.Laws.{Capacity}
use buffer.Bytes.{Repr}
use buffer.VecCopy.{VecCopy}
use buffer.VecCopy.Build.{
  with_type, with_type_non_copy, with_capacity, with_capacity_non_copy, from_vec, from_vec_non_copy,
  with_size, from_slice,
}
use buffer.VecCopy.Update.{copy_from_slice}
use buffer.VecCopy.Holds.{Holds}
use buffer.VecCopy.Laws.Build.{
  with_type_refines, with_capacity_refines, with_size_refines, from_vec_refines, from_slice_refines,
  copy_from_slice_refines,
}

zero_or_positive : (n : ℕ) → (n ≡ 0) ⊎ (0 < n)
zero_or_positive zero = inl refl
zero_or_positive (suc n) = inr (omega arith)

module _ {A : Type 0} (t : Repr A) where
  -- What a constructor does: it panics at a zero-sized type, and returns a buffer of `xs` at any
  -- other.
  abbrev pub Makes : Outcome VecCopy → List A → Type 0
  Makes m xs = ((t.size_of ≡ 0) × (m ≡ panic)) ⊎ ((v : VecCopy) × (m ≡ ok v) × Holds t v xs)

module _ (p : Platform) {A : Type 0} (t : Repr A) where
  zero_sized_panics :
      (n : ℕ) (x : A) (xs : List A) (ys : Vec A) (v : VecCopy)
      → t.size_of ≡ 0
      → (with_type t ≡ panic)
        × (with_capacity p t n ≡ panic)
        × (with_size p t n x ≡ panic)
        × (from_vec p t ys ≡ panic)
        × (from_slice p t xs ≡ panic)
        × (copy_from_slice p t v xs ≡ panic)
  unfolding with_type with_type_non_copy with_capacity with_capacity_non_copy with_size from_vec
      from_vec_non_copy from_slice copy_from_slice
  zero_sized_panics n x xs ys v e =
      let z = ==-true t.size_of 0 e in (rw z, rw z, rw z, rw z, rw z, rw z)

  -- At each type, `with_type`, `with_capacity`, `with_size`, `from_vec`, `from_slice` and
  -- `copy_from_slice` panic, and the type is zero-sized, or return a buffer, and it holds what
  -- the call says, which only a buffer of a type with a size does: nothing, nothing, `n` times
  -- the value, the vector, the slice, and the slice whatever the buffer was before. The vector
  -- is within its capacity, the capacity that each asks for is at most `isize::MAX` bytes, and
  -- so is that of the buffer that is overwritten, which has room for its bytes.
  pub constructors_lem :
      (n : ℕ) (x : A) (xs : List A) (ys : Vec A) (v : VecCopy)
      → n * t.size_of ≤ isize_max
      → length xs * t.size_of ≤ isize_max
      → length ys.items ≤ ys.capacity
      → ys.capacity * t.size_of ≤ isize_max
      → Capacity (length v.items.items) v.items.capacity
      → Makes t (with_type t) []
        × Makes t (with_capacity p t n) []
        × Makes t (with_size p t n x) (replicate n x)
        × Makes t (from_vec p t ys) ys.items
        × Makes t (from_slice p t xs) xs
        × Makes t (copy_from_slice p t v xs) xs
  constructors_lem n x xs ys v few short within small room = elim (zero_or_positive t.size_of) [
    | inl z ↦
        let (a, b, c, d, e, f) = zero_sized_panics n x xs ys v z in
        (inl (z, a), inl (z, b), inl (z, c), inl (z, d), inl (z, e), inl (z, f))
    | inr h ↦
        let (a, ea, ha, _) = with_type_refines p t h in
        let (b, eb, hb, _) = with_capacity_refines p t h n few in
        let (d, ed, hd, _) = from_vec_refines p t h ys within small in
        (
          inr (a, ea, ha),
          inr (b, eb, hb),
          inr (with_size_refines p t h n x few),
          inr (d, ed, hd),
          inr (from_slice_refines p t h xs short),
          inr (copy_from_slice_refines p t h v xs room short),
        )
  ]
