-- ===== src/VecClone/Equality.antt =====
-- The derived `PartialEq` and `Hash` of `VecClone` (src/vec_clone.rs), with those of the functions that it
-- carries (src/traits.rs).
use buffer.Common.{Bool, true, ◌&&◌, ℕ, List, [], ◌∷◌, ◌++◌}
use buffer.Common.Effects.{Eff}
use buffer.VecCopy.Equality
use buffer.VecClone.{VecClone}

-- `PartialEq` of `CloneFn`, `CloneFromFn` and `DropFn`.
unfoldable pub fn_eq : {F : Type 0} → F → F → Bool
fn_eq f other = true

unfoldable pub eq : {W : Type 0} → VecClone W → VecClone W → Bool
unfolding fn_eq
eq v other =
    Equality.eq v.elements other.elements
    && fn_eq v.clone_fn other.clone_fn
    && fn_eq v.clone_from_fn other.clone_from_fn
    && fn_eq v.drop_fn other.drop_fn

-- `Hash` of the same: the address of the function.
unfoldable pub fn_hash : {F : Type 0} → (F → ℕ) → F → List ℕ → List ℕ
fn_hash address f state = state ++ address f ∷ []

-- Where the functions of a program are.
pub record Addresses (W : Type 0) : Type 0 where
  pub clone_at : (List ℕ → Eff W (List ℕ)) → ℕ
  pub clone_from_at : (List ℕ → List ℕ → Eff W (List ℕ)) → ℕ
  pub drop_at : (List ℕ → Eff W (Unit {0})) → ℕ

unfoldable pub hash : {W : Type 0} → Addresses W → VecClone W → List ℕ → List ℕ
unfolding fn_hash
hash addresses v state = fn_hash addresses.drop_at v.drop_fn (
    fn_hash addresses.clone_from_at v.clone_from_fn
      (fn_hash addresses.clone_at v.clone_fn (Equality.hash v.elements state)))
