-- ===== src/DynDerive/Functions.antt =====
-- The functions that `construct_dyn_items` of dyn-derive/src/lib.rs generates, at a type `S` with the
-- implementations `impls`, over a world `W`.
use buffer.Common.{ℕ, List, Bool, ◌==◌, length, Outcome, ok, assert}
use buffer.Common.Effects.{Eff, pure, lift, ◌>>=◌}
use buffer.Common.Outcomes
use buffer.Std.Slice.{copy_from_slice}
use buffer.Bytes.{Repr, RefMut, read_at, write_at, from_raw_parts}
use buffer.Traits.{Impls}
use buffer.DynDerive.KnownTraits.{KnownFn}

module _ {S : Type 0} (t : Repr S) where
  unfoldable pub from_bytes : List ℕ → Outcome S
  from_bytes bytes = Outcomes.◌>>◌ (assert (length bytes == t.size_of)) (read_at t bytes 0)

  unfoldable pub from_bytes_mut : List ℕ → Outcome (RefMut S (List ℕ))
  from_bytes_mut bytes = Outcomes.◌>>◌ (assert (length bytes == t.size_of)) (
      Outcomes.◌>>=◌ (read_at t bytes 0)
        (λ s. ok (record { value = s; put = λ new. write_at t bytes 0 new })))

  unfoldable pub as_bytes : S → Outcome (List ℕ)
  as_bytes s = from_raw_parts (t.to_bytes s) t.size_of

  unfoldable pub box_into_box_bytes : S → Outcome (List ℕ)
  box_into_box_bytes b = let byte_ptr = t.to_bytes b in from_raw_parts byte_ptr t.size_of

-- `F` is the type of formatters, `R` that of the result, and `fmt` the implementation of `Debug`.
module _ {S W F R : Type 0} (t : Repr S) (impls : Impls S W) (fmt : S → F → F × R) where
  unfoldable pub clone_fn : List ℕ → Eff W (List ℕ)
  clone_fn src = do
    typed_src ← lift (from_bytes t src)
    cloned ← (λ w. ok (impls.clone typed_src w))
    lift (box_into_box_bytes t cloned)

  unfoldable pub clone_from_fn : List ℕ → List ℕ → Eff W (List ℕ)
  clone_from_fn dst src = do
    typed_src ← lift (from_bytes t src)
    typed_dst ← lift (from_bytes_mut t dst)
    new ← (λ w. ok (impls.clone_from typed_dst.value typed_src w))
    pure (typed_dst.put new)

  -- The clone is not dropped.
  unfoldable pub clone_into_raw_fn : List ℕ → List ℕ → Eff W (List ℕ)
  clone_into_raw_fn src dst = do
    typed_src ← lift (from_bytes t src)
    cloned ← (λ w. ok (impls.clone typed_src w))
    cloned_bytes ← lift (as_bytes t cloned)
    lift (copy_from_slice dst cloned_bytes)

  unfoldable pub eq_fn : List ℕ → List ℕ → Outcome Bool
  eq_fn a b =
      Outcomes.◌>>=◌ (from_bytes t a)
        (λ x. Outcomes.◌>>=◌ (from_bytes t b) (λ y. ok (impls.eq x y)))

  unfoldable pub hash_fn : List ℕ → List ℕ → Outcome (List ℕ)
  hash_fn bytes state =
      Outcomes.◌>>=◌ (from_bytes t bytes) (λ typed_data. ok (impls.hash typed_data state))

  unfoldable pub fmt_fn : List ℕ → F → Outcome (F × R)
  fmt_fn bytes f = Outcomes.◌>>=◌ (from_bytes t bytes) (λ typed_data. ok (fmt typed_data f))

-- A function over bytes, of one of the types in the table.
pub data BytesFn (W F R : Type 0) : Type 0 where
  cloning : (List ℕ → Eff W (List ℕ)) → BytesFn W F R
  overwriting : (List ℕ → List ℕ → Eff W (List ℕ)) → BytesFn W F R
  comparing : (List ℕ → List ℕ → Outcome Bool) → BytesFn W F R
  hashing : (List ℕ → List ℕ → Outcome (List ℕ)) → BytesFn W F R
  printing : (List ℕ → F → Outcome (F × R)) → BytesFn W F R

-- `#fn_name::<T>`, the function that is generated under a name.
unfoldable pub generated_fn :
    {S W F R : Type 0} → Repr S → Impls S W → (S → F → F × R) → KnownFn → BytesFn W F R
generated_fn t impls fmt KnownFn.clone_fn = cloning (clone_fn t impls fmt)
generated_fn t impls fmt KnownFn.clone_from_fn = overwriting (clone_from_fn t impls fmt)
generated_fn t impls fmt KnownFn.clone_into_raw_fn = overwriting (clone_into_raw_fn t impls fmt)
generated_fn t impls fmt KnownFn.eq_fn = comparing (eq_fn t impls fmt)
generated_fn t impls fmt KnownFn.hash_fn = hashing (hash_fn t impls fmt)
generated_fn t impls fmt KnownFn.fmt_fn = printing (fmt_fn t impls fmt)
