-- ===== src/VecCopy/Laws/Reach.antt =====
-- The states that a `VecCopy` gets into by the operations that do not know its element type.
use native.Mathlib.Nat.{div-add-mod'}
use buffer.Common.{ℕ, ◌*◌, ◌/◌, ◌≡◌, subst, List, Bool, length, Outcome, ok, Returns, arith}
use buffer.Std.Platform.{Platform}
use buffer.Value.Copy.{CopyValueRef}
use buffer.VecCopy.{
  VecCopy, push_bytes, extend_bytes, append, rotate_left, rotate_right, clear, len,
}
use buffer.VecCopy.Values.{push_value, extend}
use buffer.VecCopy.Laws.Valid.{
  IsValid, push_bytes-IsValid, extend_bytes-IsValid, push_value-IsValid, extend-IsValid,
  append-IsValid, rotate_left-IsValid, rotate_right-IsValid, clear-IsValid,
}

-- A call that returns, and leaves the buffer in another state. A call of `append` changes both of
-- its buffers; the other one is valid, and of the same element size if it is of the same type.
pub data Step (p : Platform) : VecCopy → VecCopy → Type 0 where
  pushed_bytes :
      {v u : VecCopy} {done : Bool} (bs : List ℕ) → push_bytes p v bs ≡ ok (u, done) → Step p v u
  extended_bytes :
      {v u : VecCopy} {done : Bool} (bs : List ℕ) → extend_bytes p v bs ≡ ok (u, done) → Step p v u
  pushed_value :
      {v u : VecCopy} {done : Bool} (r : CopyValueRef)
      → push_value p v r ≡ ok (u, done)
      → Step p v u
  extended : {v u : VecCopy} (rs : List CopyValueRef) → extend p v rs ≡ ok u → Step p v u
  appended :
      {v u other rest : VecCopy} {done : Bool}
      → IsValid other
      → (other.element_type_id ≡ v.element_type_id → other.element_size ≡ v.element_size)
      → append p v other ≡ ok (u, rest, done)
      → Step p v u
  moved_away :
      {v other u : VecCopy} {done : Bool}
      → IsValid other
      → (v.element_type_id ≡ other.element_type_id → v.element_size ≡ other.element_size)
      → {grown : VecCopy} → append p other v ≡ ok (grown, u, done)
      → Step p v u
  rotated_left : {v u : VecCopy} (mid : ℕ) → rotate_left p v mid ≡ ok u → Step p v u
  rotated_right : {v u : VecCopy} (k : ℕ) → rotate_right p v k ≡ ok u → Step p v u
  cleared : {v : VecCopy} → Step p v (clear v)

pub data Reaches (p : Platform) : VecCopy → VecCopy → Type 0 where
  here : {v : VecCopy} → Reaches p v v
  after : {v u w : VecCopy} → Step p v u → Reaches p u w → Reaches p v w

returned : {A : Type 0} (P : A → Type 0) {m : Outcome A} {a : A} → Returns P m → m ≡ ok a → P a
returned P h e = subst (Returns P) e h

module _ (p : Platform) where
  Step-IsValid : {v u : VecCopy} → Step p v u → IsValid v → IsValid u
  Step-IsValid (pushed_bytes bs e) h = returned _ (push_bytes-IsValid p bs h) e
  Step-IsValid (extended_bytes bs e) h = returned _ (extend_bytes-IsValid p bs h) e
  Step-IsValid (pushed_value r e) h = returned _ (push_value-IsValid p r h) e
  Step-IsValid (extended rs e) h = returned _ (extend-IsValid p rs h) e
  Step-IsValid (appended k same e) h = (returned _ (append-IsValid p h k same) e).0
  Step-IsValid (moved_away k same e) h = (returned _ (append-IsValid p k h same) e).1
  Step-IsValid (rotated_left mid e) h = returned _ (rotate_left-IsValid p mid h) e
  Step-IsValid (rotated_right k e) h = returned _ (rotate_right-IsValid p k h) e
  Step-IsValid cleared h = clear-IsValid h

  -- Whatever calls of `push_bytes`, `extend_bytes`, `push_value`, `extend`, `append`,
  -- `rotate_left`, `rotate_right` and `clear` a valid buffer goes through, in any order and with
  -- any arguments, as long as they return and the other buffer of an `append` is valid, and of
  -- the same element size if it has the same `TypeId`, it stays valid: its bytes are a whole
  -- number of elements, within an allocation that is in order.
  pub Reaches-IsValid : {v u : VecCopy} → Reaches p v u → IsValid v → IsValid u
  Reaches-IsValid here h = h
  Reaches-IsValid (after s r) h = Reaches-IsValid r (Step-IsValid s h)

  len-IsValid :
      {v : VecCopy}
      → IsValid v
      → (n : ℕ) × (len p v ≡ ok n) × (n * v.element_size ≡ length v.items.items)
  unfolding len
  len-IsValid {v} h = (
    length v.items.items / v.element_size,
    ground (arith, h.whole),
    omega (arith, div-add-mod' (length v.items.items) v.element_size, h.whole),
  )

  -- In each state that a valid buffer reaches by such calls, `len` returns, in either build, and
  -- its result times the element size is the number of bytes.
  pub len-Reaches :
      {v u : VecCopy}
      → IsValid v
      → Reaches p v u
      → (n : ℕ) × (len p u ≡ ok n) × (n * u.element_size ≡ length u.items.items)
  len-Reaches h r = len-IsValid (Reaches-IsValid r h)
