-- ===== src/VecCopy/Update.antt =====
-- The operations of `VecCopy` that change it by typed values (src/lib.rs).
-- The result `true` stands for `Some(self)`, and `false` for `None`.
use buffer.Common.{
  ℕ, zero, suc, ◌-◌, List, Bool, true, false, none, some, map, not, ◌==◌, leb, if◌then◌else◌,
  length, Outcome, ok, assert, ◌>>=◌, ◌>>◌,
}
use buffer.Std.Platform.{Platform, mul_usize}
use buffer.Std.Vec
use buffer.Std.Slice
use buffer.Std.Vec.{vec}
use buffer.Bytes.{Repr, encode, as_bytes, from_raw_parts}
use buffer.VecCopy.{VecCopy, with_items, check_ref, len, reserve_bytes, push_bytes}
use buffer.VecCopy.Access.{iter_mut}

-- `for v in slice.iter_mut() { *v = def; }`
abbrev pub assign_all : {A : Type 0} → A → List A → List A
assign_all def xs = map (λ _. def) xs

module _ (p : Platform) {A : Type 0} (t : Repr A) where
  unfoldable pub push : VecCopy → A → Outcome (VecCopy × Bool)
  push v element = elim (check_ref t v) [
    | none ↦ ok (v, false)
    | some _ ↦ do bytes ← as_bytes t element; push_bytes p v bytes
  ]

  -- `for _ in 0..n { self.push(value.clone()); }`
  unfoldable pub push_times : ℕ → VecCopy → A → Outcome VecCopy
  push_times zero v value = ok v
  push_times (suc n) v value = do (w, _) ← push v value; push_times n w value

  unfoldable pub resize : VecCopy → ℕ → A → Outcome (VecCopy × Bool)
  resize v new_len value = elim (check_ref t v) [
    | none ↦ ok (v, false)
    | some _ ↦ do
      let size_t = t.size_of
      n ← len p v
      if leb n new_len
          then (do
            let diff = new_len - n
            bytes ← mul_usize p diff size_t
            w ← reserve_bytes p v bytes
            w' ← push_times diff w value
            ok (w', true))
          else (do
            bytes ← mul_usize p new_len size_t
            d ← Vec.resize p v.items bytes 0
            ok (with_items v d, true))
  ]

  -- Takes over the type of the slice, whatever the buffer held.
  unfoldable pub copy_from_slice : VecCopy → List A → Outcome VecCopy
  copy_from_slice v slice = do
    let element_size = t.size_of
    assert (not (element_size == 0))
    bins ← mul_usize p (length slice) element_size
    byte_slice ← from_raw_parts (encode t slice) bins
    d ← Vec.resize p v.items bins 0
    bs ← Slice.copy_from_slice d.items byte_slice
    ok (record {
      items = vec bs d.capacity;
      element_size = element_size;
      element_type_id = t.type_id;
    })

  unfoldable pub fill : VecCopy → A → Outcome (VecCopy × Bool)
  fill v def = do
    r ← iter_mut p t v
    elim r [ none ↦ ok (v, false) | some slice ↦ ok (slice.put (assign_all def slice.value), true) ]
