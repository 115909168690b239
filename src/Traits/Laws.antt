-- ===== src/Traits/Laws.antt =====
-- On the bytes of a value, the functions of a table do what the traits of its type do.
use buffer.Common.{
  subst, ℕ, leb-true, take_all, ◌≡◌, refl, List, [], ◌∷◌, length, ok, ==-true, sym, ◌∙◌, arith,
}
use native.Mathlib.Nat.{le_of_eq}
use buffer.Bytes.{
  box_from_box_bytes, from_raw_parts, box_into_box_bytes, from_byte_mut_ptr, Repr, RefMut,
  from_bytes_mut, write_at, read_at,
}
use buffer.Bytes.Laws.{from_bytes_lem, as_bytes_lem, encode_one, encode-set, read_at-encode}
use buffer.Std.Slice.{copy_from_slice}
use buffer.Traits.{Impls, drop_bytes, clone_bytes, clone_from_bytes, clone_into_raw_bytes, eq_bytes}

module _ {A : Type 0} (t : Repr A) where
  -- A mutable reference to a value in its bytes.
  pub from_bytes_mut_lem :
      (x : A)
      → (r : RefMut A (List ℕ)) × (from_bytes_mut t (t.to_bytes x) ≡ ok r)
        × (r.value ≡ x)
        × ((y : A) → r.put y ≡ t.to_bytes y)
  unfolding from_bytes_mut from_byte_mut_ptr
  from_bytes_mut_lem x =
      let right_size = ==-true (length (t.to_bytes x)) t.size_of (t.length-to_bytes x) in
      let one =
        subst (λ m. read_at t m 0 ≡ ok x) (encode_one t x) (read_at-encode t (x ∷ []) 0 refl) in
      (
        record { value = x; put = λ y. write_at t (t.to_bytes x) 0 y },
        rw (right_size, one),
        refl,
        λ y.
            subst (λ m. write_at t m 0 y ≡ t.to_bytes y) (encode_one t x)
              (encode-set t (x ∷ []) 0 y (omega arith) ∙ encode_one t y),
      )

  pub box_into_box_bytes_lem : (x : A) → box_into_box_bytes t x ≡ ok (t.to_bytes x)
  unfolding box_into_box_bytes from_raw_parts
  box_into_box_bytes_lem x =
      let within =
        leb-true t.size_of (length (t.to_bytes x)) (le_of_eq (sym (t.length-to_bytes x))) in
      rw (within, take_all (t.to_bytes x) t.size_of (le_of_eq (t.length-to_bytes x)))

  pub box_from_box_bytes_lem : (x : A) → box_from_box_bytes t (t.to_bytes x) ≡ ok x
  unfolding box_from_box_bytes
  box_from_box_bytes_lem x =
      subst (λ m. read_at t m 0 ≡ ok x) (encode_one t x) (read_at-encode t (x ∷ []) 0 refl)

module _ {A W : Type 0} (t : Repr A) (impls : Impls A W) where
  pub drop_bytes_lem :
      (x : A) (w : W) → drop_bytes t impls (t.to_bytes x) w ≡ ok (tt, impls.drop x w)
  unfolding drop_bytes
  drop_bytes_lem x w = let (r, e, same, _) = from_bytes_mut_lem t x in rw (e, drop_bytes, same)

  pub clone_bytes_lem :
      (x : A) (w : W)
      → clone_bytes t impls (t.to_bytes x) w
        ≡ ok (t.to_bytes (impls.clone x w).0, (impls.clone x w).1)
  unfolding clone_bytes
  clone_bytes_lem x w =
      rw (from_bytes_lem t x, clone_bytes, box_into_box_bytes_lem t (impls.clone x w).0)

  pub clone_from_bytes_lem :
      (x y : A) (w : W)
      → clone_from_bytes t impls (t.to_bytes x) (t.to_bytes y) w
        ≡ ok (t.to_bytes (impls.clone_from x y w).0, (impls.clone_from x y w).1)
  unfolding clone_from_bytes
  clone_from_bytes_lem x y w =
      let (r, e, same, put) = from_bytes_mut_lem t x in
      rw (from_bytes_lem t y, clone_from_bytes, e, same, put (impls.clone_from x y w).0)

  pub clone_into_raw_bytes_lem :
      (x : A) (dst : List ℕ) (w : W)
      → length dst ≡ t.size_of
      → clone_into_raw_bytes t impls (t.to_bytes x) dst w
        ≡ ok (t.to_bytes (impls.clone x w).0, (impls.clone x w).1)
  unfolding clone_into_raw_bytes copy_from_slice
  clone_into_raw_bytes_lem x dst w h =
      let y = (impls.clone x w).0 in
      let lengths = ==-true (length (t.to_bytes y)) (length dst) (t.length-to_bytes y ∙ sym h) in
      rw (from_bytes_lem t x, clone_into_raw_bytes, as_bytes_lem t y, lengths)

  pub eq_bytes_lem : (x y : A) → eq_bytes t impls (t.to_bytes x) (t.to_bytes y) ≡ ok (impls.eq x y)
  unfolding eq_bytes
  eq_bytes_lem x y = rw (from_bytes_lem t x, from_bytes_lem t y, eq_bytes)
