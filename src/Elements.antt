-- ===== src/Elements.antt =====
-- The loops over elements that `VecDyn` (src/vec_dyn.rs) and `VecClone` (src/vec_clone.rs) share.
pub mod Laws
use buffer.Common.{ℕ, zero, suc, List, [], ◌∷◌, ok}
use buffer.Common.Effects.{Eff, pure, lift, modify, ◌>>=◌, ◌>>◌}
use buffer.Std.Platform.{Platform}
use buffer.Bytes.{Repr}
use buffer.Traits.{Impls}
use buffer.VecCopy.{VecCopy}
use buffer.VecCopy.Update

-- A call of the `DropFn` for each of the elements.
unfoldable pub drop_each :
    {W : Type 0} → (List ℕ → Eff W (Unit {0})) → List (List ℕ) → Eff W (Unit {0})
drop_each drop_fn [] = pure tt
drop_each drop_fn (elem_bytes ∷ rest) = do drop_fn elem_bytes; drop_each drop_fn rest

-- `src.zip(dst).for_each(|(src, dst)| clone_from_fn(dst, src))`: the destinations after it.
unfoldable pub clone_from_each :
    {W : Type 0}
    → (List ℕ → List ℕ → Eff W (List ℕ))
    → List (List ℕ)
    → List (List ℕ)
    → Eff W (List (List ℕ))
clone_from_each clone_from_fn [] dsts = pure dsts
clone_from_each clone_from_fn (src ∷ srcs) [] = pure []
clone_from_each clone_from_fn (src ∷ srcs) (dst ∷ dsts) = do
  dst' ← clone_from_fn dst src
  dsts' ← clone_from_each clone_from_fn srcs dsts
  pure (dst' ∷ dsts')

-- The clones of the elements of a slice, from the first on.
unfoldable pub clone_slice : {A W : Type 0} → Impls A W → List A → Eff W (List A)
clone_slice impls [] = pure []
clone_slice impls (x ∷ xs) = do
  y ← (λ w. ok (impls.clone x w))
  ys ← clone_slice impls xs
  pure (y ∷ ys)

-- The elements of `vec![def; n]`: `n - 1` clones and then the value itself.
unfoldable pub repeat_value : {A W : Type 0} → Impls A W → ℕ → A → Eff W (List A)
repeat_value impls zero def = do modify (impls.drop def); pure []
repeat_value impls (suc zero) def = pure (def ∷ [])
repeat_value impls (suc (suc n)) def = do
  y ← (λ w. ok (impls.clone def w))
  ys ← repeat_value impls (suc n) def
  pure (y ∷ ys)

-- `for v in slice { *v = def.clone(); }`: an assignment drops the value that was there.
unfoldable pub assign_clones : {A W : Type 0} → Impls A W → A → List A → Eff W (List A)
assign_clones impls def [] = pure []
assign_clones impls def (v ∷ rest) = do
  cloned ← (λ w. ok (impls.clone def w))
  modify (impls.drop v)
  rest' ← assign_clones impls def rest
  pure (cloned ∷ rest')

module _ (p : Platform) {A W : Type 0} (t : Repr A) (impls : Impls A W) where
  -- `for _ in 0..n { self.data.push(value.clone()); }`
  unfoldable pub push_clones : ℕ → VecCopy → A → Eff W VecCopy
  push_clones zero elements value = pure elements
  push_clones (suc n) elements value = do
    cloned ← (λ w. ok (impls.clone value w))
    (elements', _) ← lift (Update.push p t elements cloned)
    push_clones n elements' value
