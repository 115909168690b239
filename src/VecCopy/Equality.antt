-- ===== src/VecCopy/Equality.antt =====
-- The derived `PartialEq` and `Hash` of `VecCopy` (src/lib.rs).
use buffer.Common.{ℕ, List, [], ◌∷◌, Bool, true, false, ◌&&◌, ◌==◌, ◌++◌, length}
use buffer.VecCopy.{VecCopy}

-- The equality of vectors, which looks at their items alone.
unfoldable pub bytes_eq : List ℕ → List ℕ → Bool
bytes_eq [] [] = true
bytes_eq (a ∷ as') (b ∷ bs) = a == b && bytes_eq as' bs
bytes_eq [] (_ ∷ _) = false
bytes_eq (_ ∷ _) [] = false

unfoldable pub eq : VecCopy → VecCopy → Bool
eq v other =
    bytes_eq v.items.items other.items.items
    && v.element_size == other.element_size
    && v.element_type_id == other.element_type_id

-- What a hasher has been fed, with the buffer behind it. A vector is its length and its items.
unfoldable pub hash : VecCopy → List ℕ → List ℕ
hash v state =
    state ++ (length v.items.items ∷ (v.items.items ++ v.element_size ∷ v.element_type_id ∷ []))
