-- ===== src/VecCopy/Laws/Read.antt =====
-- Typed reads and writes in place on a buffer of typed values.
use native.Mathlib.Decide.{dec_lt}
use native.Mathlib.Nat.{le_of_eq}
use buffer.VecCopy.Update.{assign_all, fill}
use buffer.VecCopy.Convert.{
  Reinterpret, reinterpret_into_vec, copy_into_vec, append_to_vec, into_vec,
}
use buffer.Common.{
  none, arith, get_elem?-none, get_elem?-total, Outcome, Option, length-map, subst, map-const,
  replicate, ◌/◌, true, ◌%◌, append-nil, ◌∙◌, length-set, drop_all, ap, ◌*◌, drop, ◌++◌, set,
  get_elem?-lt, ℕ, ◌≤◌, ◌≡◌, refl, List, some, length, get_elem?, ok, panic, ltb-true, ltb-false,
}
use buffer.Std.Platform.{Platform}
use buffer.Std.Vec.{vec}
use buffer.Bytes.{slice_from_raw_parts, read_at, write_at, RefMut, Repr, encode}
use buffer.Bytes.Laws.{encode-set, read_at-encode, slice_from_raw_parts-encode, length-encode}
use buffer.VecCopy.{VecCopy, with_items}
use buffer.VecCopy.Access.{iter, iter_mut, as_mut_slice, get_mut, get_ref, as_slice, get}
use buffer.VecCopy.Holds.{
  check-Holds, check_mut-Holds, Holds, byte_length, len-Holds, check_ref-Holds,
}

-- An element that is there, or the panic of a failed assertion.
abbrev pub or_panic : {A : Type 0} → Option A → Outcome (Option A)
or_panic (some x) = ok (some x)
or_panic none = panic

module _ (p : Platform) {A : Type 0} (t : Repr A) where
  -- The same buffer over the bytes of as many values.
  pub rewrite-Holds :
      {v : VecCopy} {xs : List A} (ys : List A) {bs : List ℕ}
      → Holds t v xs
      → length ys ≡ length xs
      → bs ≡ encode t ys
      → Holds t (with_items v (vec bs v.items.capacity)) ys
  rewrite-Holds {v} {xs} ys h same e = record {
    positive = h.positive;
    same_type = h.same_type;
    same_size = h.same_size;
    memory = e;
    room = record {
      enough = rw (e, length-encode t ys, same, ← byte_length h) h.room.enough;
      allocatable = h.room.allocatable;
    };
  }

  module _ {v : VecCopy} {xs : List A} (h : Holds t v xs) where
    -- `as_slice` of a buffer that holds `xs` at its type is `xs`, without undefined behaviour.
    pub as_slice_refines : as_slice p t v ≡ ok (some xs)
    unfolding as_slice
    as_slice_refines = rw (
      check_ref-Holds h,
      as_slice,
      len-Holds p h,
      h.memory,
      slice_from_raw_parts-encode t xs (length xs) refl,
    )

    pub get_refines : (i : ℕ) {x : A} → get_elem? xs i ≡ some x → get p t v i ≡ ok (some x)
    unfolding get
    get_refines i e = rw (
      len-Holds p h,
      get,
      ltb-true i (length xs) (get_elem?-lt xs i e),
      check_ref-Holds h,
      h.memory,
      read_at-encode t xs i e,
    )

    get-panic : (i : ℕ) → length xs ≤ i → get p t v i ≡ panic
    unfolding get
    get-panic i le = rw (len-Holds p h, get, ltb-false i (length xs) le)

    -- `get(i)` on a buffer that holds `xs` at its type is the `i`th of them, and panics if there
    -- is none.
    pub get-eq-get_elem? : (i : ℕ) → get p t v i ≡ or_panic (get_elem? xs i)
    get-eq-get_elem? i = elim (dec_lt i (length xs)) [
      | yes lt ↦ let (x, e) = get_elem?-total xs i lt in rw e (get_refines i e)
      | no ge ↦ rw (get_elem?-none xs i (omega arith)) (get-panic i (omega arith))
    ]

    -- `get_ref` reads what `get` reads, in range and out of it.
    pub get_ref-eq-get : (i : ℕ) → get_ref p t v i ≡ get p t v i
    unfolding get_ref get
    get_ref-eq-get i = refl

    -- `get_mut(i)`, where a buffer holds `xs` and `x` is the `i`th of them, borrows `x`, and
    -- after a write of `y` the buffer holds `xs` with `y` at `i`.
    get_mut_refines :
        (i : ℕ) {x : A}
        → get_elem? xs i ≡ some x
        → (r : RefMut A VecCopy) × (get_mut p t v i ≡ ok (some r))
          × (r.value ≡ x)
          × ((y : A) → Holds t (r.put y) (set xs i y))
    unfolding get_mut
    get_mut_refines i {x} e = (
      record {
        value = x;
        put = λ y. with_items v (vec (write_at t v.items.items i y) v.items.capacity);
      },
      rw (
        len-Holds p h,
        get_mut,
        ltb-true i (length xs) (get_elem?-lt xs i e),
        check_mut-Holds h,
        ap (λ m. read_at t m i) h.memory,
        read_at-encode t xs i e,
      ),
      refl,
      λ y.
          rewrite-Holds (set xs i y) h (length-set xs i y)
            (ap (λ m. write_at t m i y) h.memory ∙ encode-set t xs i y (get_elem?-lt xs i e)),
    )

    -- A write through the mutable slice, of as many values.
    pub as_mut_slice_refines :
        (r : RefMut (List A) VecCopy) × (as_mut_slice p t v ≡ ok (some r))
        × (r.value ≡ xs)
        × ((ys : List A) → length ys ≡ length xs → Holds t (r.put ys) ys)
    unfolding as_mut_slice
    as_mut_slice_refines = (
      record {
        value = xs;
        put = λ ys.
            with_items v
              (vec (encode t ys ++ drop (length xs * t.size_of) v.items.items) v.items.capacity);
      },
      rw (
        check_mut-Holds h,
        as_mut_slice,
        len-Holds p h,
        ap (λ m. slice_from_raw_parts t m (length xs)) h.memory,
        slice_from_raw_parts-encode t xs (length xs) refl,
      ),
      refl,
      λ ys same. rewrite-Holds ys h same (nothing_behind ys),
    )
      where
        nothing_behind :
            (ys : List A) → encode t ys ++ drop (length xs * t.size_of) v.items.items ≡ encode t ys
        nothing_behind ys =
            rw (drop_all v.items.items (length xs * t.size_of) (le_of_eq (byte_length h)))
              (append-nil _)

    -- `fill` on a buffer that holds `xs` at its type returns `Some`, and the buffer holds as
    -- many copies of the value.
    fill_refines :
        (def : A)
        → (w : VecCopy) × (fill p t v def ≡ ok (w, true)) × Holds t w (replicate (length xs) def)
    unfolding fill iter_mut
    fill_refines def =
        let (r, e, same, put) = as_mut_slice_refines in
        (
          r.put (assign_all def r.value),
          rw (e, fill),
          subst (λ zs. Holds t (r.put (assign_all def r.value)) zs) (filled same)
              (put _ (length-map _ r.value ∙ ap length same)),
        )
      where
        filled : {zs : List A} → zs ≡ xs → assign_all def zs ≡ replicate (length xs) def
        filled e = rw e (map-const def xs)

    pub copy_into_vec_refines : copy_into_vec p t v ≡ ok (some xs)
    unfolding copy_into_vec append_to_vec iter
    copy_into_vec_refines = rw (as_slice_refines, copy_into_vec)

    pub append_to_vec_refines : (ys : List A) → append_to_vec p t v ys ≡ ok (some (ys ++ xs))
    unfolding append_to_vec iter
    append_to_vec_refines ys = rw (as_slice_refines, append_to_vec)

    pub into_vec_refines :
        (r : Reinterpret t)
        → v.items.capacity % t.size_of ≡ 0
        → into_vec r v ≡ ok (some (vec xs (v.items.capacity / t.size_of)))
    unfolding into_vec reinterpret_into_vec
    into_vec_refines r whole = rw (
      check-Holds h,
      into_vec,
      ap (λ m. r.reinterpret_vec (vec m v.items.capacity)) h.memory,
      r.reinterpret_vec-encode xs v.items.capacity whole,
    )
