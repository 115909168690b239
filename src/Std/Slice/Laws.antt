-- ===== src/Std/Slice/Laws.antt =====
-- What the rotations keep.
use buffer.Common.{
  ℕ, ◌-◌, ◌≡◌, List, ◌++◌, length, take, drop, ok, arith, length-append, length-take, length-drop,
}
use buffer.Std.Slice.{rotate_left, rotate_right}

module _ {ℓ} {A : Type ℓ} where
  pub length-drop-take : (n : ℕ) (xs : List A) → length (drop n xs ++ take n xs) ≡ length xs
  length-drop-take n xs =
      omega (arith, length-append (drop n xs) (take n xs), length-drop n xs, length-take n xs)

  pub length-rotate_left :
      (xs : List A) (n : ℕ) {ys : List A} → rotate_left xs n ≡ ok ys → length ys ≡ length xs
  unfolding rotate_left
  length-rotate_left xs n {ys} e = ground (arith, length-drop-take n xs)

  pub length-rotate_right :
      (xs : List A) (n : ℕ) {ys : List A} → rotate_right xs n ≡ ok ys → length ys ≡ length xs
  unfolding rotate_right
  length-rotate_right xs n {ys} e = ground (arith, length-drop-take (length xs - n) xs)
