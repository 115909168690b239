-- ===== src/VecClone/Laws/Hash.antt =====
-- What the derived equality and hash of a `VecClone` tell apart.
use buffer.Common.{◌≡◌, ◌↔◌, ℕ, List, and_true, true}
use buffer.VecCopy.Laws.Equality.{same_last, hash-eq}
use buffer.VecClone.{VecClone}
use buffer.VecClone.Equality.{Addresses, eq, hash}

-- Two `VecClone`s feed a hasher the same by the derived `Hash` if and only if they are equal by
-- the derived `==` and the functions that they carry, which `==` does not look at, are at the
-- same addresses.
pub hash-eq_and_addresses :
    {W : Type 0} (addresses : Addresses W) (v u : VecClone W) (state : List ℕ)
    → (hash addresses v state ≡ hash addresses u state) ↔ (
        (eq v u ≡ true)
        × (addresses.clone_at v.clone_fn ≡ addresses.clone_at u.clone_fn)
        × (addresses.clone_from_at v.clone_from_fn ≡ addresses.clone_from_at u.clone_from_fn)
        × (addresses.drop_at v.drop_fn ≡ addresses.drop_at u.drop_fn))
unfolding eq hash
hash-eq_and_addresses addresses v u state = (
  λ e.
      let (before_drop, drops) = same_last _ _ _ _ e in
      let (before_from, clone_froms) = same_last _ _ _ _ before_drop in
      let (same, clones) = same_last _ _ _ _ before_from in
      (rw (((hash-eq v.elements u.elements state).0 same)), clones, clone_froms, drops),
  λ (same, clones, clone_froms, drops).
      let elements = (and_true _ _ (and_true _ _ (and_true _ _ same).0).0).0 in
      rw ((hash-eq v.elements u.elements state).1 elements, clones, clone_froms, drops),
)
