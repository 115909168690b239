-- ===== src/VecCopy/Laws/Valid.antt =====
-- The invariant of `VecCopy`, whatever its type: the bytes are those of a whole number of elements.
use native.Mathlib.Nat.{mod_self, add-mod, zero-mod}
use buffer.Common.{
  inr, inl, Bool-cases, panic, undefined, ◌>>=◌, ◌==◌, ◌≢◌, eq_of_==, assert, if◌then◌else◌,
  ==-false, ℕ, ◌%◌, ◌<◌, ◌≡◌, refl, List, [], ◌∷◌, ◌++◌, Bool, true, false, length, Outcome, ok,
  arith, Returns, Returns->>=, length-append,
}
use buffer.Std.Platform.{mul_usize, Platform}
use buffer.Std.Vec
use buffer.Std.Vec.{Vec, vec}
use buffer.Std.Vec.Laws.{Capacity, extend_from_slice_ok}
use buffer.Value.Copy.{CopyValueRef, size, value_type_id}
use buffer.VecCopy.{
  slice_rotate_left, VecCopy, with_items, push_bytes, extend_bytes, append, rotate_left,
  rotate_right, clear,
}
use buffer.Std.Slice
use buffer.Std.Slice.Laws.{length-rotate_left, length-rotate_right}
use buffer.VecCopy.Values.{push_value, extend}

pub record IsValid (v : VecCopy) : Type 0 where
  pub positive : 0 < v.element_size
  pub whole : length v.items.items % v.element_size ≡ 0
  pub room : Capacity (length v.items.items) v.items.capacity

-- Whole elements behind whole elements.
whole_append :
    (k : ℕ) (xs ys : List ℕ) → length xs % k ≡ 0 → length ys % k ≡ 0 → length (xs ++ ys) % k ≡ 0
whole_append k xs ys h h' =
    rw (length-append xs ys, add-mod (length xs) (length ys) k, h, h') (rw (zero-mod k))

abbrev Keeps : VecCopy × Bool → Type 0
Keeps r = IsValid r.0

nonzero : {v : VecCopy} → IsValid v → v.element_size ≢ 0
nonzero h = omega arith

assert_ok : {b : Bool} → assert b ≡ ok tt → b ≡ true
assert_ok {b = true} e = refl
assert_ok {b = false} e = cc

-- As many bytes in another order.
permuted :
    {v : VecCopy} (bs : List ℕ)
    → IsValid v
    → length bs ≡ length v.items.items
    → IsValid (with_items v (vec bs v.items.capacity))
permuted bs h e = record { positive = h.positive; whole = rw e h.whole; room = rw e h.room }

pub clear-IsValid : {v : VecCopy} → IsValid v → IsValid (clear v)
unfolding clear
clear-IsValid {v} h = record {
  positive = h.positive;
  whole = zero-mod v.element_size;
  room = record { enough = omega arith; allocatable = h.room.allocatable };
}

module _ (p : Platform) where
  -- The common step of the operations that add bytes.
  extended-IsValid :
      {v : VecCopy} (bs : List ℕ) {d : Vec ℕ}
      → IsValid v
      → length bs % v.element_size ≡ 0
      → Vec.extend_from_slice p v.items bs ≡ ok d
      → IsValid (with_items v d)
  extended-IsValid {v} bs h w e =
      let (items, room) = extend_from_slice_ok p v.items bs h.room e in
      record {
        positive = h.positive;
        whole = rw items (whole_append v.element_size v.items.items bs h.whole w);
        room = room;
      }

  -- The bytes are added, or the buffer stays as it is.
  added-IsValid :
      {v : VecCopy} (bs : List ℕ) (test : Bool)
      → IsValid v
      → (test ≡ true → length bs % v.element_size ≡ 0)
      → Returns Keeps (
          if test
          then (do d ← Vec.extend_from_slice p v.items bs; ok (with_items v d, true))
          else ok (v, false))
  added-IsValid {v} bs true h w = Returns->>= Keeps _ _ (λ d e. extended-IsValid bs h (w refl) e)
  added-IsValid {v} bs false h w = h

  pub push_bytes-IsValid :
      {v : VecCopy} (bs : List ℕ) → IsValid v → Returns Keeps (push_bytes p v bs)
  unfolding push_bytes
  push_bytes-IsValid {v} bs h =
      added-IsValid bs _ h
        (λ e. rw (eq_of_== {a = length bs} {b = v.element_size} e) (mod_self v.element_size))

  -- `extend_bytes` keeps a valid buffer valid when it returns, whatever bytes it is given.
  pub extend_bytes-IsValid :
      {v : VecCopy} (bs : List ℕ) → IsValid v → Returns Keeps (extend_bytes p v bs)
  unfolding extend_bytes
  extend_bytes-IsValid {v} bs h =
      rw (==-false v.element_size 0 (nonzero h)) (added-IsValid bs _ h (λ e. eq_of_== e))

  pub push_value-IsValid :
      {v : VecCopy} (r : CopyValueRef) → IsValid v → Returns Keeps (push_value p v r)
  unfolding push_value
  push_value-IsValid {v} r h = Returns->>= Keeps (assert (size r == v.element_size)) _ (λ _ e.
      added-IsValid r.bytes _ h (λ _. rw (eq_of_== (assert_ok e)) (mod_self v.element_size)))

  -- `append` keeps both buffers valid when it returns, if buffers of one `TypeId` have one
  -- element size: their bytes stay a whole number of elements, within an allocation that is in
  -- order.
  pub append-IsValid :
      {v u : VecCopy}
      → IsValid v
      → IsValid u
      → (u.element_type_id ≡ v.element_type_id → u.element_size ≡ v.element_size)
      → Returns (λ (r : VecCopy × VecCopy × Bool). IsValid r.0 × IsValid r.1) (append p v u)
  unfolding append Vec.append
  append-IsValid {v} {u} h k same = elim (Bool-cases (u.element_type_id == v.element_type_id)) [
    | inl e ↦ rw e (appended (same (eq_of_== e)))
    | inr e ↦ rw e (h, k)
  ]
    where
      finish :
          (m : Outcome (Vec ℕ))
          → ((d : Vec ℕ) → m ≡ ok d → IsValid (with_items v d))
          → Returns
              (λ (r : VecCopy × VecCopy × Bool). IsValid r.0 × IsValid r.1)
              (m >>= (λ d. let r : Vec ℕ × Vec ℕ = (d, Vec.clear u.items) in ok r) >>= (λ r.
                let out : VecCopy × VecCopy × Bool = (with_items v r.0, with_items u r.1, true) in
                ok out))
      finish (ok d) f = (f d refl, unfold clear in clear-IsValid k)
      finish panic f = tt
      finish undefined f = tt

      appended :
          u.element_size ≡ v.element_size
          → Returns
              (λ (r : VecCopy × VecCopy × Bool). IsValid r.0 × IsValid r.1)
              (Vec.extend_from_slice p v.items u.items.items
                >>= (λ d. let r : Vec ℕ × Vec ℕ = (d, Vec.clear u.items) in ok r)
                >>= (λ r.
                    let out : VecCopy × VecCopy × Bool =
                      (with_items v r.0, with_items u r.1, true) in
                    ok out))
      appended e =
          finish (Vec.extend_from_slice p v.items u.items.items)
            (λ d e'. extended-IsValid u.items.items h (rw (← e) k.whole) e')

  -- `extend` by any references keeps a valid buffer valid when it returns.
  pub extend-IsValid :
      (rs : List CopyValueRef) {v : VecCopy} → IsValid v → Returns IsValid (extend p v rs)
  unfolding extend
  extend-IsValid [] h = h
  extend-IsValid (r ∷ rs) {v} h = Returns->>= IsValid (assert (size r == v.element_size)) _ (λ _ e.
      Returns->>= IsValid (assert (value_type_id r == v.element_type_id)) _ (λ _ _.
        Returns->>= IsValid (Vec.extend_from_slice p v.items r.bytes) _ (λ d e'.
          extend-IsValid rs (
            extended-IsValid r.bytes h (rw (eq_of_== (assert_ok e)) (mod_self v.element_size))
              e'))))

  pub rotate_left-IsValid :
      {v : VecCopy} (mid : ℕ) → IsValid v → Returns IsValid (rotate_left p v mid)
  unfolding rotate_left
  rotate_left-IsValid {v} mid h = Returns->>= IsValid (mul_usize p mid v.element_size) _ (λ n _.
      Returns->>= IsValid (Slice.rotate_left v.items.items n) _
        (λ bs e. permuted bs h (length-rotate_left v.items.items n e)))

  pub rotate_right-IsValid :
      {v : VecCopy} (k : ℕ) → IsValid v → Returns IsValid (rotate_right p v k)
  unfolding rotate_right
  rotate_right-IsValid {v} k h = Returns->>= IsValid (mul_usize p k v.element_size) _ (λ n _.
      Returns->>= IsValid (Slice.rotate_right v.items.items n) _
        (λ bs e. permuted bs h (length-rotate_right v.items.items n e)))
