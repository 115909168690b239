-- ===== src/Std/Slice.antt =====
-- The operations on slices that the crate calls: sub-slices, chunks, rotation, copying.
pub mod Laws
use buffer.Common.{
  ℕ, zero, suc, ◌-◌, ◌/◌, List, [], ◌∷◌, ◌++◌, ◌&&◌, not, leb, ◌==◌, length, take, drop, Outcome,
  ok, assert, ◌>>◌,
}

module _ {ℓ} {A : Type ℓ} where
  -- `&xs[a..b]`
  unfoldable pub index_range : List A → ℕ → ℕ → Outcome (List A)
  index_range xs a b = do assert (leb a b && leb b (length xs)); ok (take (b - a) (drop a xs))

  -- `xs[a..b].copy_from_slice(ys)`, with the whole of `xs` after it.
  unfoldable pub write_range : List A → ℕ → ℕ → List A → Outcome (List A)
  write_range xs a b ys = do
    assert (leb a b && leb b (length xs))
    assert (length ys == b - a)
    ok (take a xs ++ (ys ++ drop b xs))

  -- The first `n` pieces of `k` elements.
  abbrev pub chunks : ℕ → ℕ → List A → List (List A)
  chunks k zero xs = []
  chunks k (suc n) xs = take k xs ∷ chunks k n (drop k xs)

  -- `chunks_exact` panics at size zero, and leaves out a shorter last piece.
  unfoldable pub chunks_exact : List A → ℕ → Outcome (List (List A))
  chunks_exact xs k = do assert (not (k == 0)); ok (chunks k (length xs / k) xs)

  unfoldable pub rotate_left : List A → ℕ → Outcome (List A)
  rotate_left xs mid = do assert (leb mid (length xs)); ok (drop mid xs ++ take mid xs)

  unfoldable pub rotate_right : List A → ℕ → Outcome (List A)
  rotate_right xs k = do
    assert (leb k (length xs))
    let mid = length xs - k
    ok (drop mid xs ++ take mid xs)

  -- `dst.copy_from_slice(src)` leaves `src` in `dst`, if the lengths agree.
  unfoldable pub copy_from_slice : List A → List A → Outcome (List A)
  copy_from_slice dst src = do assert (length src == length dst); ok src

  -- `a.swap_with_slice(b)`: the new `a` and the new `b`.
  unfoldable pub swap_with_slice : List A → List A → Outcome (List A × List A)
  swap_with_slice a b = do assert (length a == length b); ok (b, a)

  unfoldable pub concat : List (List A) → List A
  concat [] = []
  concat (xs ∷ xss) = xs ++ concat xss
