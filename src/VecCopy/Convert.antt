-- ===== src/VecCopy/Convert.antt =====
-- The conversions of a `VecCopy` into vectors (src/lib.rs), and what the crate takes from the
-- package `reinterpret`.
use buffer.Common.{ℕ, length, ◌/◌, ◌%◌, ◌≡◌, List, [], ◌++◌, Option, none, some, Outcome, ok, ◌>>=◌}
use buffer.Std.Platform.{Platform}
use buffer.Std.Vec.{Vec, vec}
use buffer.Bytes.{Repr, RefMut, encode}
use buffer.VecCopy.{VecCopy, check, with_items}
use buffer.VecCopy.Access.{iter}

-- `reinterpret_vec` and `reinterpret_slice`, which are no part of the crate: at the memory of a
-- sequence of values they give the values. A vector's capacity has to be a whole number of values.
pub record Reinterpret {A : Type 0} (t : Repr A) : Type 0 where
  pub reinterpret_vec : Vec ℕ → Outcome (Vec A)
  pub reinterpret_slice : List ℕ → Outcome (List A)
  pub reinterpret_vec-encode :
      (xs : List A) (cap : ℕ)
      → cap % t.size_of ≡ 0
      → reinterpret_vec (vec (encode t xs) cap) ≡ ok (vec xs (cap / t.size_of))
  pub reinterpret_slice-encode : (xs : List A) → reinterpret_slice (encode t xs) ≡ ok xs

module _ {A : Type 0} {t : Repr A} (r : Reinterpret t) where
  -- Unsafe.
  unfoldable pub reinterpret_into_vec : VecCopy → Outcome (Vec A)
  reinterpret_into_vec v = r.reinterpret_vec v.items

  unfoldable pub reinterpret_as_slice : VecCopy → Outcome (List A)
  reinterpret_as_slice v = r.reinterpret_slice v.items.items

  unfoldable pub reinterpret_iter : VecCopy → Outcome (List A)
  reinterpret_iter v = reinterpret_as_slice v

  unfoldable pub into_vec : VecCopy → Outcome (Option (Vec A))
  into_vec v = elim (check t v) [
    | none ↦ ok none
    | some x ↦ do w ← reinterpret_into_vec x; ok (some w)
  ]

-- `reinterpret_mut_slice`: a write of as many values leaves the memory of these.
pub record ReinterpretMut {A : Type 0} (t : Repr A) : Type 0 where
  pub reinterpret_mut_slice : List ℕ → Outcome (RefMut (List A) (List ℕ))
  pub reinterpret_mut_slice-encode :
      (xs : List A)
      → (r : RefMut (List A) (List ℕ)) × (reinterpret_mut_slice (encode t xs) ≡ ok r)
        × (r.value ≡ xs)
        × ((ys : List A) → length ys ≡ length xs → r.put ys ≡ encode t ys)

module _ {A : Type 0} {t : Repr A} (r : ReinterpretMut t) where
  -- Unsafe.
  unfoldable pub reinterpret_as_mut_slice : VecCopy → Outcome (RefMut (List A) VecCopy)
  reinterpret_as_mut_slice v = do
    slice ← r.reinterpret_mut_slice v.items.items
    ok (record {
      value = slice.value;
      put = λ ys. with_items v (vec (slice.put ys) v.items.capacity);
    })

  -- Unsafe.
  unfoldable pub reinterpret_iter_mut : VecCopy → Outcome (RefMut (List A) VecCopy)
  reinterpret_iter_mut v = reinterpret_as_mut_slice v

module _ (p : Platform) {A : Type 0} (t : Repr A) where
  -- The items of the vector after it. Its capacity grows by the standard library's policy.
  unfoldable pub append_to_vec : VecCopy → List A → Outcome (Option (List A))
  append_to_vec v vec = do
    xs ← iter p t v
    elim xs [ none ↦ ok none | some ys ↦ ok (some (vec ++ ys)) ]

  unfoldable pub copy_into_vec : VecCopy → Outcome (Option (List A))
  copy_into_vec v = do r ← append_to_vec v []; elim r [ some vec ↦ ok (some vec) | none ↦ ok none ]
