-- ===== src/VecCopy/Laws/Cast.antt =====
-- What the cast of a numeric buffer gives.
use buffer.Common.{
  arith, ◌%◌, ◌≡◌, ◌≢◌, ap, ◌∙◌, List, [], map, ok, ==-true, ◌∷◌, Option, none, some, refl, ◌⊎◌,
  inl, inr,
}
use buffer.Std.Platform.{Platform}
use buffer.Std.Vec.{vec}
use buffer.Macros.{NumericType, call_numeric_buffer_fn}
use buffer.Macros.Laws.{call_numeric_buffer_fn_lem, match_arms-other}
use buffer.VecCopy.{VecCopy}
use buffer.VecCopy.Cast.{Numbers, convert, convert_into_vec, cast_into_vec}
use buffer.VecCopy.Convert.{reinterpret_into_vec}
use buffer.VecCopy.Holds.{Holds}

module _ {O : Type 0} (numbers : Numbers O) where
  -- `y` is what the cast of `x` gives, or zero if `x` has no cast.
  abbrev pub IsCast : (n : NumericType) → numbers.Num n → O → Type 0
  IsCast n x y = (numbers.cast n x ≡ some y) ⊎ ((numbers.cast n x ≡ none) × (y ≡ numbers.zero))

  -- One for each of the others, in order.
  abbrev pub AreCasts : (n : NumericType) → List (numbers.Num n) → List O → Type 0
  AreCasts n [] [] = Unit
  AreCasts n (x ∷ xs) (y ∷ ys) = IsCast n x y × AreCasts n xs ys
  AreCasts n [] (_ ∷ _) = ⊥
  AreCasts n (_ ∷ _) [] = ⊥

module _ {O : Type 0} (p : Platform) (numbers : Numbers O) where
  convert_into_vec-Holds :
      (n : NumericType) {v : VecCopy} {xs : List (numbers.Num n)}
      → Holds (numbers.repr n) v xs
      → v.items.capacity % (numbers.repr n).size_of ≡ 0
      → convert_into_vec p numbers v n ≡ ok (map (convert p numbers n) xs)
  unfolding convert_into_vec reinterpret_into_vec
  convert_into_vec-Holds n {v} {xs} h whole =
      let r = numbers.reinterpret n in
      let read =
        ap (λ m. r.reinterpret_vec (vec m v.items.capacity)) h.memory
        ∙ r.reinterpret_vec-encode xs v.items.capacity whole in
      let same = ==-true v.element_type_id (numbers.repr n).type_id h.same_type in
      ground (arith, same, read)

  cast-IsCast :
      (n : NumericType) (x : numbers.Num n) (o : Option O)
      → numbers.cast n x ≡ o
      → IsCast numbers n x (convert p numbers n x)
  unfolding convert
  cast-IsCast n x none e = inr (e, rw e)
  cast-IsCast n x (some y) e = inl (rw e)

  convert-AreCasts :
      (n : NumericType) (xs : List (numbers.Num n))
      → AreCasts numbers n xs (map (convert p numbers n) xs)
  convert-AreCasts n [] = tt
  convert-AreCasts n (x ∷ xs) = (cast-IsCast n x _ refl, convert-AreCasts n xs)

  -- `cast_into_vec` of a buffer that holds `xs` of a numeric type returns as many values, in
  -- order: for each element what `cast` of num-traits gives of it at its type, and zero if that
  -- is `None`, where numeric types have different `TypeId`s, the capacity is a whole number of
  -- elements, and `reinterpret_vec` is as assumed.
  pub cast_into_vec_refines :
      (n : NumericType) {v : VecCopy} {xs : List (numbers.Num n)}
      → ((a b : NumericType) → (numbers.repr a).type_id ≡ (numbers.repr b).type_id → a ≡ b)
      → Holds (numbers.repr n) v xs
      → v.items.capacity % (numbers.repr n).size_of ≡ 0
      → (ys : List O) × (cast_into_vec p numbers v ≡ ok ys) × AreCasts numbers n xs ys
  unfolding cast_into_vec
  cast_into_vec_refines n {v} {xs} distinct h whole =
      let type_ids = λ (a : NumericType). (numbers.repr a).type_id in
      (
        map (convert p numbers n) xs,
        ap (λ x. call_numeric_buffer_fn type_ids x (convert_into_vec p numbers v) (ok []))
              h.same_type
            ∙ call_numeric_buffer_fn_lem type_ids (convert_into_vec p numbers v) (ok []) distinct n
            ∙ convert_into_vec-Holds n h whole,
        convert-AreCasts n xs,
      )

  pub cast_into_vec-other :
      (v : VecCopy)
      → ((n : NumericType) → v.element_type_id ≢ (numbers.repr n).type_id)
      → cast_into_vec p numbers v ≡ ok []
  unfolding cast_into_vec call_numeric_buffer_fn
  cast_into_vec-other v differ = match_arms-other _ _ _ _ v.element_type_id differ
