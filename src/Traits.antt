-- ===== src/Traits.antt =====
-- The traits of src/traits.rs over bytes, and the table of functions that a buffer carries in place
-- of its type (src/value.rs, and the code that dyn-derive/src/lib.rs generates).
pub mod Laws
use buffer.Common.{ℕ, List, Bool, ◌==◌, length, Outcome, ok, assert}
use buffer.Common.Effects.{Eff, pure, lift, modify, ◌>>=◌, ◌>>◌}
use buffer.Common.Outcomes
use buffer.Std.Slice.{copy_from_slice}
use buffer.Bytes.{Repr, RefMut, as_bytes, from_bytes, from_bytes_mut, box_into_box_bytes}

-- The implementations that a type `A` has of the supported traits, over a world `W`. `clone_from`
-- takes the value that it overwrites first. `hash` gives what a hasher has been fed.
pub record Impls (A W : Type 0) : Type 0 where
  pub drop : A → W → W
  pub clone : A → W → A × W
  pub clone_from : A → A → W → A × W
  pub eq : A → A → Bool
  pub hash : A → List ℕ → List ℕ

-- `(DropFn, V)` for a table `V` of the traits `Clone`, `PartialEq` and `Hash`.
pub record VTable (W : Type 0) : Type 0 where
  pub drop_fn : List ℕ → Eff W (Unit {0})
  pub clone_fn : List ℕ → Eff W (List ℕ)
  pub clone_from_fn : List ℕ → List ℕ → Eff W (List ℕ)
  pub clone_into_raw_fn : List ℕ → List ℕ → Eff W (List ℕ)
  pub eq_fn : List ℕ → List ℕ → Outcome Bool
  pub hash_fn : List ℕ → List ℕ → Outcome (List ℕ)

module _ {A W : Type 0} (t : Repr A) (impls : Impls A W) where
  unfoldable pub drop_bytes : List ℕ → Eff W (Unit {0})
  drop_bytes bytes = do md ← lift (from_bytes_mut t bytes); modify (impls.drop md.value)

  unfoldable pub clone_bytes : List ℕ → Eff W (List ℕ)
  clone_bytes src = do
    typed_src ← lift (from_bytes t src)
    cloned ← (λ w. ok (impls.clone typed_src w))
    lift (box_into_box_bytes t cloned)

  -- The bytes of the destination after it.
  unfoldable pub clone_from_bytes : List ℕ → List ℕ → Eff W (List ℕ)
  clone_from_bytes dst src = do
    typed_src ← lift (from_bytes t src)
    typed_dst ← lift (from_bytes_mut t dst)
    new ← (λ w. ok (impls.clone_from typed_dst.value typed_src w))
    pure (typed_dst.put new)

  -- The destination is not dropped.
  unfoldable pub clone_into_raw_bytes : List ℕ → List ℕ → Eff W (List ℕ)
  clone_into_raw_bytes src dst = do
    typed_src ← lift (from_bytes t src)
    cloned ← (λ w. ok (impls.clone typed_src w))
    cloned_bytes ← lift (as_bytes t cloned)
    lift (copy_from_slice dst cloned_bytes)

  unfoldable pub eq_bytes : List ℕ → List ℕ → Outcome Bool
  eq_bytes a b =
      Outcomes.◌>>=◌ (from_bytes t a)
        (λ x. Outcomes.◌>>=◌ (from_bytes t b) (λ y. ok (impls.eq x y)))

  unfoldable pub hash_bytes : List ℕ → List ℕ → Outcome (List ℕ)
  hash_bytes bytes state =
      Outcomes.◌>>=◌ (from_bytes t bytes) (λ typed_data. ok (impls.hash typed_data state))

  -- `(DropFn(T::drop_bytes), V::build_vtable())`
  unfoldable pub build_vtable : VTable W
  build_vtable = record {
    drop_fn = drop_bytes;
    clone_fn = clone_bytes;
    clone_from_fn = clone_from_bytes;
    clone_into_raw_fn = clone_into_raw_bytes;
    eq_fn = eq_bytes;
    hash_fn = hash_bytes;
  }

-- `fmt` is the implementation of `Debug`, `F` the type of formatters, and `R` that of the result.
unfoldable pub fmt_bytes :
    {A F R : Type 0} → Repr A → (A → F → F × R) → List ℕ → F → Outcome (F × R)
fmt_bytes t fmt bytes f = Outcomes.◌>>=◌ (from_bytes t bytes) (λ typed_data. ok (fmt typed_data f))
