-- ===== src/DynDerive/Laws/Paths.antt =====
-- The paths of a type that the checks of dyn-derive/src/lib.rs reach: through the elements of arrays,
-- slices, tuples, groups and parentheses, through references and pointers, and through the arguments
-- and results of function pointers. What is written inside the path, as in `Option<Self>`, and in the
-- bounds of `dyn` and `impl` is not reached.
use buffer.Common.{◌==◌, length, false, Bool, true, none, some, List, [], ◌∷◌, ◌++◌, ◌≡◌}
use buffer.DynDerive.Syntax.{
  SynPath, TypePath, SynType, array, bare_fn, group, impl_trait, paren, path, ptr, reference, slice,
  trait_object, tuple, other, Types, nil, cons, ReturnType, default, returns, plain,
}

unfoldable mutual
  pub checked_paths : SynType → List TypePath
  checked_paths (array elem len) = checked_paths elem
  checked_paths (bare_fn inputs output) = checked_paths_all inputs ++ checked_paths_output output
  checked_paths (group elem) = checked_paths elem
  checked_paths (impl_trait bounds) = []
  checked_paths (paren elem) = checked_paths elem
  checked_paths (path p) = p ∷ []
  checked_paths (ptr m elem) = checked_paths elem
  checked_paths (reference l m elem) = checked_paths elem
  checked_paths (slice elem) = checked_paths elem
  checked_paths (trait_object d bounds) = []
  checked_paths (tuple elems) = checked_paths_all elems
  checked_paths (other text) = []

  pub checked_paths_all : Types → List TypePath
  checked_paths_all nil = []
  checked_paths_all (cons t ts) = checked_paths t ++ checked_paths_all ts

  pub checked_paths_output : ReturnType → List TypePath
  checked_paths_output default = []
  checked_paths_output (returns t) = checked_paths t

abbrev pub All {ℓ κ} : {A : Type ℓ} → (A → Type κ) → List A → Type κ
All P [] = Unit
All P (x ∷ xs) = P x × All P xs

-- One segment, with arguments or without, and no `::` before it.
abbrev pub is_single : SynPath → Bool
is_single p = elim p.leading_colon [ true ↦ false | false ↦ length p.segments == 1 ]

-- A path without `<T as Trait>`, which is `Self` if it has one segment.
abbrev pub IsOnlySelf : TypePath → Type 0
IsOnlySelf p = (p.qself ≡ none) × (is_single p.path ≡ true → plain p.path ≡ some "Self")

module _ {ℓ κ} {A : Type ℓ} (P : A → Type κ) where
  pub All-append : (xs ys : List A) → All P xs → All P ys → All P (xs ++ ys)
  All-append [] ys h k = k
  All-append (x ∷ xs) ys h k = (h.0, All-append xs ys h.1 k)

  pub All-left : (xs ys : List A) → All P (xs ++ ys) → All P xs
  All-left [] ys h = tt
  All-left (x ∷ xs) ys h = (h.0, All-left xs ys h.1)

  pub All-right : (xs ys : List A) → All P (xs ++ ys) → All P ys
  All-right [] ys h = h
  All-right (x ∷ xs) ys h = All-right xs ys h.1

module _ {ℓ κ μ} {A : Type ℓ} (P : A → Type κ) (Q : A → Type μ) (f : (x : A) → P x → Q x) where
  pub All-map : (xs : List A) → All P xs → All Q xs
  All-map [] h = tt
  All-map (x ∷ xs) h = (f x h.0, All-map xs h.1)
