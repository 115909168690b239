-- ===== src/Std/Vec/Laws.antt =====
-- What the operations on a vector of bytes do within the largest allocation.
use native.Mathlib.Nat.{le_of_eq}
use native.Mathlib.Decide.{dec_le, dec_lt}
use buffer.Common.{
  subst, ap, leb-false, ok-injective, panic, length-take, sym, length-append, take_all, ◌∙◌, arith,
  [], length-replicate, leb-true, ltb-true, ◌-◌, replicate, ◌<◌, take, ℕ, ◌+◌, ◌≤◌, ◌≡◌, List, ◌++◌,
  Bool-cases, inl, inr, leb, length, ok, le_of_leb, ltb-false,
}
use buffer.Std.Platform.{Platform, isize_max}
use buffer.Std.Vec.{with_capacity, from_raw_parts, resize, Vec, vec, reserve, extend_from_slice}

-- A capacity that holds `n` bytes and that an allocation can have.
pub record Capacity (n cap : ℕ) : Type 0 where
  pub enough : n ≤ cap
  pub allocatable : cap ≤ isize_max

module _ (p : Platform) where
  pub reserve_lem :
      (d : Vec ℕ) (n : ℕ)
      → Capacity (length d.items) d.capacity
      → length d.items + n ≤ isize_max
      → (cap : ℕ) × (reserve p d n ≡ ok (vec d.items cap)) × Capacity (length d.items + n) cap
  unfolding reserve
  reserve_lem d n c h = elim (Bool-cases (leb (length d.items + n) d.capacity)) [
    | inl e ↦ (d.capacity, rw e, record { enough = le_of_leb e; allocatable = c.allocatable })
    | inr e ↦ (
      p.grow d.capacity (length d.items + n),
      rw (e, ltb-false _ _ h),
      record { enough = p.grow_enough _ _; allocatable = p.grow_bounded _ _ h },
    )
  ]

  pub extend_from_slice_lem :
      (d : Vec ℕ) (bs : List ℕ)
      → Capacity (length d.items) d.capacity
      → length d.items + length bs ≤ isize_max
      → (cap : ℕ) × (extend_from_slice p d bs ≡ ok (vec (d.items ++ bs) cap))
        × Capacity (length d.items + length bs) cap
  unfolding extend_from_slice
  extend_from_slice_lem d bs c h =
      let (cap, e, c') = reserve_lem d (length bs) c h in (cap, rw e, c')

  -- A `resize` to no more elements keeps the first ones, and the allocation.
  pub truncate_lem :
      (d : Vec ℕ) (n x : ℕ)
      → n ≤ length d.items
      → resize p d n x ≡ ok (vec (take n d.items) d.capacity)
  unfolding resize
  truncate_lem d n x h = rw (ltb-false (length d.items) n h)

  -- One to more elements fills up.
  pub fill_up_lem :
      (d : Vec ℕ) (n x : ℕ)
      → length d.items < n
      → resize p d n x ≡ extend_from_slice p d (replicate (n - length d.items) x)
  unfolding resize
  fill_up_lem d n x h = rw (ltb-true (length d.items) n h)

  -- After a `resize` there are as many elements as asked for.
  pub resize_lem :
      (d : Vec ℕ) (n x : ℕ)
      → Capacity (length d.items) d.capacity
      → n ≤ isize_max
      → (d' : Vec ℕ) × (resize p d n x ≡ ok d') × (length d'.items ≡ n) × Capacity n d'.capacity
  resize_lem d n x c h = elim (dec_lt (length d.items) n) [
    | yes lt ↦
        let more = replicate (n - length d.items) x in
        let total : length d.items + length more ≡ n = rw length-replicate (omega arith) in
        let (room, e, c') = extend_from_slice_lem d more c (rw total h) in
        (
          vec (d.items ++ more) room,
          fill_up_lem d n x lt ∙ e,
          length-append d.items more ∙ total,
          rw total at c',
        )
    | no ge ↦ (
      vec (take n d.items) d.capacity,
      truncate_lem d n x (omega arith),
      omega (arith, length-take n d.items),
      record { enough = omega (arith, c.enough); allocatable = c.allocatable },
    )
  ]

  pub with_capacity_lem : (n : ℕ) → n ≤ isize_max → with_capacity p n ≡ ok (vec [] n)
  unfolding with_capacity
  with_capacity_lem n h = rw (ltb-false isize_max n h)

pub from_raw_parts_lem :
    (bs : List ℕ) (n k : ℕ) → n ≡ length bs → n ≤ k → from_raw_parts bs n k ≡ ok (vec bs k)
unfolding from_raw_parts
from_raw_parts_lem bs n k e h =
    rw (leb-true n k h, leb-true n (length bs) (le_of_eq e), take_all bs n (le_of_eq (sym e)))

module _ (p : Platform) where
  -- What does not fit into the largest allocation panics.
  pub extend_from_slice-panic :
      (d : Vec ℕ) (bs : List ℕ)
      → Capacity (length d.items) d.capacity
      → isize_max < length d.items + length bs
      → extend_from_slice p d bs ≡ panic
  unfolding extend_from_slice reserve
  extend_from_slice-panic d bs c h = rw (
    leb-false (length d.items + length bs) d.capacity (omega (arith, c.allocatable)),
    ltb-true isize_max (length d.items + length bs) h,
  )

  -- A vector that comes out of `extend_from_slice` holds the new elements behind the old ones.
  pub extend_from_slice_ok :
      (d : Vec ℕ) (bs : List ℕ) {d' : Vec ℕ}
      → Capacity (length d.items) d.capacity
      → extend_from_slice p d bs ≡ ok d'
      → (d'.items ≡ d.items ++ bs) × Capacity (length d'.items) d'.capacity
  extend_from_slice_ok d bs {d'} c e = elim (dec_le (length d.items + length bs) isize_max) [
    | yes small ↦
        let (most, e', c') = extend_from_slice_lem p d bs c small in
        let same : vec (d.items ++ bs) most ≡ d' = ok-injective (sym e' ∙ e) in
        (
          ap (λ u. u.items) (sym same),
          subst (λ (u : Vec ℕ). Capacity (length u.items) u.capacity) same (rw length-append c'),
        )
    | no large ↦ cc (extend_from_slice-panic d bs c (omega arith))
  ]
