-- ===== src/VecCopy/Laws/Equality.antt =====
-- What the equality of buffers decides.
use buffer.Common.{
  length-append, arith, and_true, ℕ, List, [], ◌∷◌, true, ◌==◌, ◌≡◌, ◌↔◌, refl, sym, ap, ap₂, ◌∙◌,
  length, ◌++◌, take, drop, take-append, drop-append, ok-injective, ==-true, eq_of_==, ◌/◌,
}
use buffer.Bytes.{Repr, encode, slice_from_raw_parts}
use buffer.Bytes.Laws.{slice_from_raw_parts-encode}
use buffer.VecCopy.{VecCopy}
use buffer.VecCopy.Equality.{bytes_eq, eq, hash}
use buffer.VecCopy.Holds.{Holds, div_length}

bytes_eq_refl : (xs : List ℕ) → bytes_eq xs xs ≡ true
unfolding bytes_eq
bytes_eq_refl [] = refl
bytes_eq_refl (x ∷ xs) = rw (==-true x x refl) (bytes_eq_refl xs)

bytes_eq_sound : (xs ys : List ℕ) → bytes_eq xs ys ≡ true → xs ≡ ys
unfolding bytes_eq
bytes_eq_sound [] [] h = refl
bytes_eq_sound (x ∷ xs) (y ∷ ys) h =
    let (same, rest) = and_true (x == y) (bytes_eq xs ys) h in
    ap₂ (λ a as'. a ∷ as') (eq_of_== same) (bytes_eq_sound xs ys rest)
bytes_eq_sound [] (_ ∷ _) h = cc
bytes_eq_sound (_ ∷ _) [] h = cc

module _ (v u : VecCopy) where
  pub eq_true :
      eq v u ≡ true
      → (v.items.items ≡ u.items.items)
        × (v.element_size ≡ u.element_size)
        × (v.element_type_id ≡ u.element_type_id)
  unfolding eq
  eq_true e =
      let (both, ids) = and_true _ _ e in
      let (bytes, sizes) = and_true _ _ both in
      (bytes_eq_sound v.items.items u.items.items bytes, eq_of_== sizes, eq_of_== ids)

  pub eq_of_fields :
      v.items.items ≡ u.items.items
      → v.element_size ≡ u.element_size
      → v.element_type_id ≡ u.element_type_id
      → eq v u ≡ true
  unfolding eq
  eq_of_fields bytes size id = rw (
    bytes,
    bytes_eq_refl u.items.items,
    ==-true v.element_size u.element_size size,
    ==-true v.element_type_id u.element_type_id id,
  )

module _ {A : Type 0} {t : Repr A} {v u : VecCopy} {xs ys : List A} where
  same_values : Holds t v xs → Holds t u ys → v.items.items ≡ u.items.items → xs ≡ ys
  same_values h k e =
      let size : v.element_size ≡ u.element_size = h.same_size ∙ sym k.same_size in
      let as_long : length v.items.items / v.element_size ≡ length u.items.items / u.element_size =
        ap₂ (λ bytes n. length bytes / n) e size in
      let n : length xs ≡ length ys = sym (div_length h) ∙ (as_long ∙ div_length k) in
      let bytes : encode t xs ≡ encode t ys = sym h.memory ∙ (e ∙ k.memory) in
      ok-injective (
        sym (slice_from_raw_parts-encode t xs (length ys) (sym n))
        ∙ (ap (λ m. slice_from_raw_parts t m (length ys)) bytes
            ∙ slice_from_raw_parts-encode t ys (length ys) refl))

  -- Two buffers that hold `xs` and `ys` of one type are equal by the derived `==` if and only if
  -- `xs` and `ys` are equal, whatever the capacities.
  pub eq-Holds : Holds t v xs → Holds t u ys → (eq v u ≡ true) ↔ (xs ≡ ys)
  eq-Holds h k = (
    λ e. same_values h k (eq_true v u e).0,
    λ e.
        eq_of_fields v u (h.memory ∙ (ap (encode t) e ∙ sym k.memory))
          (h.same_size ∙ sym k.same_size) (h.same_type ∙ sym k.same_type),
  )

-- Behind as many items, what comes next is the same.
split_same :
    (xs ys : List ℕ) {as' bs : List ℕ}
    → length xs ≡ length ys
    → xs ++ as' ≡ ys ++ bs
    → (xs ≡ ys) × (as' ≡ bs)
split_same xs ys {as'} {bs} n e =
    let k = length xs in
    (
      sym (take-append xs as' k refl) ∙ (ap (take k) e ∙ take-append ys bs k n),
      sym (drop-append xs as' k refl) ∙ (ap (drop k) e ∙ drop-append ys bs k n),
    )

-- The same list has the same last item.
pub same_last : (xs ys : List ℕ) (a b : ℕ) → xs ++ a ∷ [] ≡ ys ++ b ∷ [] → (xs ≡ ys) × (a ≡ b)
same_last xs ys a b e =
    let as_long : length xs ≡ length ys =
      omega (arith, length-append xs (a ∷ []), length-append ys (b ∷ []), ap length e) in
    let (same, last) = split_same xs ys as_long e in (same, cc last)

module _ (v u : VecCopy) where
  pub hash-eq : (state : List ℕ) → (hash v state ≡ hash u state) ↔ (eq v u ≡ true)
  unfolding hash
  hash-eq state = (
    λ e.
        let fed = (split_same state state refl e).1 in
        let n : length v.items.items ≡ length u.items.items = cc fed in
        let behind : v.items.items ++ (v.element_size ∷ v.element_type_id ∷ [])
            ≡ u.items.items ++ (u.element_size ∷ u.element_type_id ∷ []) =
          cc fed in
        let (bytes, fields) = split_same v.items.items u.items.items n behind in
        eq_of_fields v u bytes (cc fields) (cc fields),
    λ e. let (bytes, sizes, ids) = eq_true v u e in rw (bytes, sizes, ids),
  )
