-- ===== src/DynDerive/Laws/Functions.antt =====
-- The functions that dyn-derive/src/lib.rs generates beside those of src/traits.rs.
use buffer.Common.{◌≡◌, refl}
use buffer.Bytes.{
  Repr, from_bytes, from_byte_ptr, from_bytes_mut, from_byte_mut_ptr, as_bytes, as_byte_ptr,
  box_into_box_bytes,
}
use buffer.Traits.{
  Impls, clone_bytes, clone_from_bytes, clone_into_raw_bytes, eq_bytes, hash_bytes, fmt_bytes,
}
use buffer.DynDerive.KnownTraits.{KnownFn}
use buffer.DynDerive.Functions
use buffer.DynDerive.Functions.{
  BytesFn, cloning, overwriting, comparing, hashing, printing, generated_fn,
}

-- The function of the traits over bytes that has the part of a generated one.
abbrev pub trait_fn :
    {S W F R : Type 0} → Repr S → Impls S W → (S → F → F × R) → KnownFn → BytesFn W F R
trait_fn t impls fmt KnownFn.clone_fn = cloning (clone_bytes t impls)
trait_fn t impls fmt KnownFn.clone_from_fn = overwriting (clone_from_bytes t impls)
trait_fn t impls fmt KnownFn.clone_into_raw_fn = overwriting (clone_into_raw_bytes t impls)
trait_fn t impls fmt KnownFn.eq_fn = comparing (eq_bytes t impls)
trait_fn t impls fmt KnownFn.hash_fn = hashing (hash_bytes t impls)
trait_fn t impls fmt KnownFn.fmt_fn = printing (fmt_bytes t fmt)

module _ {S W F R : Type 0} (t : Repr S) (impls : Impls S W) (fmt : S → F → F × R) where
  -- The functions that the macro generates under the names of its table, at a type, do on all
  -- bytes and in all worlds what the functions of src/traits.rs do at that type.
  pub generated_fn-trait_fn : (fn : KnownFn) → generated_fn t impls fmt fn ≡ trait_fn t impls fmt fn
  unfolding generated_fn clone_bytes clone_from_bytes clone_into_raw_bytes eq_bytes hash_bytes
      fmt_bytes Functions.clone_fn Functions.clone_from_fn Functions.clone_into_raw_fn
      Functions.eq_fn Functions.hash_fn Functions.fmt_fn from_bytes from_byte_ptr from_bytes_mut
      from_byte_mut_ptr as_bytes as_byte_ptr box_into_box_bytes Functions.from_bytes
      Functions.from_bytes_mut Functions.as_bytes Functions.box_into_box_bytes
  generated_fn-trait_fn KnownFn.clone_fn = refl
  generated_fn-trait_fn KnownFn.clone_from_fn = refl
  generated_fn-trait_fn KnownFn.clone_into_raw_fn = refl
  generated_fn-trait_fn KnownFn.eq_fn = refl
  generated_fn-trait_fn KnownFn.hash_fn = refl
  generated_fn-trait_fn KnownFn.fmt_fn = refl
