-- ===== src/Value/Small/Laws.antt =====
-- What the operations of a `Value` over a word come to, where the word has the bytes of a value.
use buffer.Common.{ℕ, List, some, ok, ◌≡◌, refl, ==-true}
use buffer.Bytes.{
  Repr, as_bytes_mut, as_byte_ptr, from_raw_parts, box_into_box_bytes, try_from_usize,
}
use buffer.Traits.{Impls, build_vtable}
use buffer.Traits.Laws.{box_into_box_bytes_lem, drop_bytes_lem}
use buffer.Value.{BoxValue}
use buffer.Value.Boxed
use buffer.Value.Copy.{is}
use buffer.Value.Small.{Value, box_bytes, usize_bytes, drop, eq, hash, downcast}

-- Over a box, the generic operations are those of `BoxValue`.
module _ {W : Type 0} (v other : BoxValue W) where
  abbrev boxed_value : BoxValue W → Value (List ℕ) W
  boxed_value b = record { bytes = b.bytes; type_id = b.type_id; vtable = b.vtable }

  drop-box_bytes : drop box_bytes (boxed_value v) ≡ Boxed.drop v
  unfolding drop Boxed.drop
  drop-box_bytes = refl

  eq-box_bytes : eq box_bytes (boxed_value v) (boxed_value other) ≡ Boxed.eq v other
  unfolding eq Boxed.eq
  eq-box_bytes = refl

  hash-box_bytes : (state : List ℕ) → hash box_bytes (boxed_value v) state ≡ Boxed.hash v state
  unfolding hash Boxed.hash
  hash-box_bytes state = refl

module _ {A U W : Type 0} (t : Repr A) (usize : Repr U) (impls : Impls A W) where
  abbrev pub small : U → Value U W
  small word = record { bytes = word; type_id = t.type_id; vtable = build_vtable t impls }

  module _ (x : A) (word : U) (same_bytes : usize.to_bytes word ≡ t.to_bytes x)
      (same_size : t.size_of ≡ usize.size_of) where
    drop-small : (w : W) → drop (usize_bytes usize) (small word) w ≡ ok (tt, impls.drop x w)
    unfolding drop as_bytes_mut as_byte_ptr box_into_box_bytes build_vtable
    drop-small w =
        let whole : from_raw_parts (usize.to_bytes word) usize.size_of ≡ ok (usize.to_bytes word) =
          box_into_box_bytes_lem usize word in
        rw (whole, same_bytes, drop_bytes_lem t impls x w)

    -- The value is returned after it has been dropped.
    pub downcast-small : (w : W) → downcast t usize (small word) w ≡ ok (some x, impls.drop x w)
    unfolding downcast is try_from_usize
    downcast-small w = rw (
      ==-true t.type_id t.type_id refl,
      ==-true t.size_of usize.size_of same_size,
      same_bytes,
      t.read-to_bytes x,
      drop-small w,
    )
