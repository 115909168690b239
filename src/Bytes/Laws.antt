-- ===== src/Bytes/Laws.antt =====
-- The memory of a sequence of values, cut into pieces and read back.
use buffer.Common.{
  subst, ==-true, append-nil, set_split, drop-some, ℕ, zero, suc, ◌*◌, ◌+◌, ◌≤◌, ◌<◌, ◌≡◌, refl, ap,
  sym, ◌∙◌, List, [], ◌∷◌, ◌++◌, map, some, length, take, drop, get_elem?, ok, arith, length-append,
  take-append, drop-append, take_all, leb-true, get_elem?-lt, take-append_add, drop-append_add,
  take-nil, drop-nil, ap₂, set, append_assoc,
}
use native.Mathlib.Nat.{le_of_eq}
use buffer.Std.Slice.{chunks}
use buffer.Bytes.{
  from_byte_ptr, from_bytes, Repr, read_all, encode, slice_from_raw_parts, read_at, write_at,
  as_bytes,
}

zero_mul : (k : ℕ) → 0 * k ≡ 0
zero_mul k = omega arith

suc_mul : (i k : ℕ) → suc i * k ≡ i * k + k
suc_mul i k = omega arith

module _ {A : Type 0} (t : Repr A) where
  pub encode-nil : encode t [] ≡ []
  unfolding encode
  encode-nil = refl

  pub encode-cons : (x : A) (xs : List A) → encode t (x ∷ xs) ≡ t.to_bytes x ++ encode t xs
  unfolding encode
  encode-cons x xs = refl

  pub encode-append : (xs ys : List A) → encode t (xs ++ ys) ≡ encode t xs ++ encode t ys
  unfolding encode
  encode-append [] ys = refl
  encode-append (x ∷ xs) ys = simp append_assoc (ap (t.to_bytes x ++◌) (encode-append xs ys))

  pub length-encode : (xs : List A) → length (encode t xs) ≡ length xs * t.size_of
  length-encode [] = rw encode-nil (omega arith)
  length-encode (x ∷ xs) = rw encode-cons (
      omega
        (arith, length-append (t.to_bytes x) (encode t xs), t.length-to_bytes x, length-encode xs))

  -- The next `size_of` bytes are those of the first value.
  pub take-cons : (x : A) (bs : List ℕ) → take t.size_of (t.to_bytes x ++ bs) ≡ t.to_bytes x
  take-cons x bs = take-append (t.to_bytes x) bs t.size_of (sym (t.length-to_bytes x))

  pub drop-cons : (x : A) (bs : List ℕ) → drop t.size_of (t.to_bytes x ++ bs) ≡ bs
  drop-cons x bs = drop-append (t.to_bytes x) bs t.size_of (sym (t.length-to_bytes x))

  pub chunks-encode : (xs : List A) → chunks t.size_of (length xs) (encode t xs) ≡ map t.to_bytes xs
  chunks-encode [] = refl
  chunks-encode (x ∷ xs) = rw encode-cons (
      ap₂ ◌∷◌ (take-cons x (encode t xs))
        (ap (chunks t.size_of (length xs)) (drop-cons x (encode t xs)) ∙ chunks-encode xs))

  pub read_all-map : (xs : List A) → read_all t.read (map t.to_bytes xs) ≡ ok xs
  read_all-map [] = refl
  read_all-map (x ∷ xs) = rw (t.read-to_bytes x, read_all-map xs)

  -- The first `i` values take up the first `i * size_of` bytes.
  pub take-encode :
      (i : ℕ) (xs : List A) → take (i * t.size_of) (encode t xs) ≡ encode t (take i xs)
  take-encode zero xs = rw encode-nil (rw (zero_mul t.size_of))
  take-encode (suc i) [] = rw encode-nil (take-nil _)
  take-encode (suc i) (x ∷ xs) =
      rw (encode-cons x xs, encode-cons x (take i xs))
        (take-append_add (t.to_bytes x) (encode t xs) _ (i * t.size_of)
            (omega (arith, t.length-to_bytes x))
          ∙ ap (t.to_bytes x ++◌) (take-encode i xs))

  pub drop-encode :
      (i : ℕ) (xs : List A) → drop (i * t.size_of) (encode t xs) ≡ encode t (drop i xs)
  drop-encode zero xs = rw (zero_mul t.size_of)
  drop-encode (suc i) [] = rw encode-nil (drop-nil _)
  drop-encode (suc i) (x ∷ xs) = rw (encode-cons x xs) (
      drop-append_add (t.to_bytes x) (encode t xs) _ (i * t.size_of)
        (omega (arith, t.length-to_bytes x))
      ∙ drop-encode i xs)

  -- A slice over the memory of `xs` is `xs`.
  pub slice_from_raw_parts-encode :
      (xs : List A) (n : ℕ) → n ≡ length xs → slice_from_raw_parts t (encode t xs) n ≡ ok xs
  unfolding slice_from_raw_parts
  slice_from_raw_parts-encode xs n h =
      rw
        (h, leb-true _ (length (encode t xs)) (le_of_eq (sym (length-encode xs))), chunks-encode xs)
        (read_all-map xs)

  -- The piece of bytes at index `i` is that of the value at `i`.
  pub piece-encode :
      (xs : List A) (i : ℕ) {x : A}
      → get_elem? xs i ≡ some x
      → take t.size_of (drop (i * t.size_of) (encode t xs)) ≡ t.to_bytes x
  piece-encode xs i {x} h =
      rw (drop-encode i xs, drop-some xs i h, encode-cons)
        (take-cons x (encode t (drop (suc i) xs)))

  pub piece_in_range :
      (xs : List A) (i : ℕ) → i < length xs → i * t.size_of + t.size_of ≤ length (encode t xs)
  piece_in_range xs i h = rw length-encode (grind arith)

  pub read_at-encode :
      (xs : List A) (i : ℕ) {x : A} → get_elem? xs i ≡ some x → read_at t (encode t xs) i ≡ ok x
  unfolding read_at
  read_at-encode xs i {x} h =
      let within =
        leb-true (i * t.size_of + t.size_of) (length (encode t xs))
          (piece_in_range xs i (get_elem?-lt xs i h)) in
      rw (within, piece-encode xs i h, t.read-to_bytes x)

  -- The bytes of a value are its representation.
  pub as_bytes_lem : (x : A) → as_bytes t x ≡ ok (t.to_bytes x)
  unfolding as_bytes
  as_bytes_lem x =
      let within =
        leb-true t.size_of (length (t.to_bytes x)) (le_of_eq (sym (t.length-to_bytes x))) in
      rw (within, take_all (t.to_bytes x) t.size_of (le_of_eq (t.length-to_bytes x)))

  pub encode_one : (x : A) → encode t (x ∷ []) ≡ t.to_bytes x
  encode_one x = rw (encode-cons, encode-nil) (append-nil _)

  pub encode-set :
      (xs : List A) (i : ℕ) (y : A)
      → i < length xs
      → write_at t (encode t xs) i y ≡ encode t (set xs i y)
  unfolding write_at
  encode-set xs i y h = rw (
    take-encode i xs,
    ← suc_mul i t.size_of,
    drop-encode (suc i) xs,
    set_split xs i y h,
    encode-append (take i xs) (y ∷ drop (suc i) xs),
    encode-cons,
  )

  pub from_bytes_lem : (x : A) → from_bytes t (t.to_bytes x) ≡ ok x
  unfolding from_bytes from_byte_ptr
  from_bytes_lem x =
      let right_size = ==-true (length (t.to_bytes x)) t.size_of (t.length-to_bytes x) in
      let one = read_at-encode (x ∷ []) 0 refl in
      rw right_size (subst (λ m. read_at t m 0 ≡ ok x) (encode_one x) one)
