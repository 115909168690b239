-- ===== src/Std/Vec.antt =====
-- `Vec<T>`: its elements and its capacity, and the operations of it that the crate calls.
pub mod Laws
use buffer.Common.{
  ℕ, ◌+◌, ◌-◌, List, [], ◌++◌, ltb, leb, if◌then◌else◌, length, take, replicate, Outcome, ok, panic,
  undefined, ◌&&◌, ◌>>=◌,
}
use buffer.Std.Platform.{Platform, isize_max}

pub record Vec {ℓ} (A : Type ℓ) : Type ℓ where
  pub items : List A
  pub capacity : ℕ

abbrev pub vec {ℓ} : {A : Type ℓ} → List A → ℕ → Vec A
vec xs cap = record { items = xs; capacity = cap }

-- `Vec::new` allocates nothing.
abbrev pub new {ℓ} : {A : Type ℓ} → Vec A
new = vec [] 0

-- `Vec::clear` keeps the capacity.
abbrev pub clear {ℓ} : {A : Type ℓ} → Vec A → Vec A
clear v = vec [] v.capacity

-- `Vec::from_raw_parts(ptr, n, cap)` over the memory behind `ptr`: the length has to lie within the
-- capacity, and the elements within the memory.
unfoldable pub from_raw_parts {ℓ} : {A : Type ℓ} → List A → ℕ → ℕ → Outcome (Vec A)
from_raw_parts ptr n cap =
    if leb n cap && leb n (length ptr) then ok (vec (take n ptr) cap) else undefined

module _ (p : Platform) where
  -- `Vec::<u8>::with_capacity`: more than `isize::MAX` bytes is a "capacity overflow" panic.
  unfoldable pub with_capacity : ℕ → Outcome (Vec ℕ)
  with_capacity n = if ltb isize_max n then panic else ok (vec [] n)

  -- `Vec::<u8>::reserve`
  unfoldable pub reserve : Vec ℕ → ℕ → Outcome (Vec ℕ)
  reserve v additional =
      let needed = length v.items + additional in
      if leb needed v.capacity
      then ok v
      else if ltb isize_max needed
      then panic
      else ok (vec v.items (p.grow v.capacity needed))

  unfoldable pub extend_from_slice : Vec ℕ → List ℕ → Outcome (Vec ℕ)
  unfolding reserve
  extend_from_slice v xs = do w ← reserve v (length xs); ok (vec (w.items ++ xs) w.capacity)

  -- `v.append(&mut w)`: both vectors after it.
  unfoldable pub append : Vec ℕ → Vec ℕ → Outcome (Vec ℕ × Vec ℕ)
  append v w = do v' ← extend_from_slice v w.items; ok (v', clear w)

  unfoldable pub resize : Vec ℕ → ℕ → ℕ → Outcome (Vec ℕ)
  resize v n x =
      if ltb (length v.items) n
      then extend_from_slice v (replicate (n - length v.items) x)
      else ok (vec (take n v.items) v.capacity)
