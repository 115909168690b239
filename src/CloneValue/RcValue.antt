-- ===== src/CloneValue/RcValue.antt =====
-- `RcValue` of src/clone_value.rs: a type-erased value behind a counted pointer.
pub mod Laws
use buffer.Common.{ℕ, List, Option, none, some, if◌then◌else◌}
use buffer.Common.Effects.{Eff, pure, ◌>>=◌, ◌>>◌}
use buffer.Std.Rc
use buffer.Std.Rc.{Heap, in_world}
use buffer.Bytes.{Repr}
use buffer.Bytes.Counted.{rc_into_rc_bytes, rc_from_rc_bytes}
use buffer.Traits.{Impls, drop_bytes}
use buffer.Value.Copy.{is}

-- `bytes` is the pointer.
pub record RcValue (W : Type 0) : Type 0 where
  pub bytes : ℕ
  pub type_id : ℕ
  pub drop_fn : List ℕ → Eff W (Unit {0})

module _ {W : Type 0} where
  -- The derived `Clone`.
  unfoldable pub clone : RcValue W → Eff (Heap W) (RcValue W)
  clone v = do bytes ← Rc.clone v.bytes; pure (record v { bytes = bytes })

  -- `if let Some(bytes) = Rc::get_mut(&mut self.bytes)`
  unfoldable pub drop_contents :
      (List ℕ → Eff W (Unit {0})) → Option (List ℕ) → Eff (Heap W) (Unit {0})
  drop_contents drop_fn none = pure tt
  drop_contents drop_fn (some bytes) = in_world (drop_fn bytes)

  -- `Drop for RcValue`
  unfoldable pub drop : RcValue W → Eff (Heap W) (Unit {0})
  unfolding drop_contents
  drop v = do contents ← Rc.get_mut v.bytes; drop_contents v.drop_fn contents; Rc.drop v.bytes

-- `RcValue::new`, which is also `From<Rc<T>> for RcValue`.
unfoldable pub new : {A W : Type 0} → Repr A → Impls A W → ℕ → Eff (Heap W) (RcValue W)
new t impls typed = do
  bytes ← rc_into_rc_bytes t typed
  pure (record { bytes = bytes; type_id = t.type_id; drop_fn = drop_bytes t impls })

-- `RcValue::downcast`: the value that the closure takes is dropped at its end.
unfoldable pub downcast : {A W : Type 0} → Repr A → RcValue W → Eff (Heap W) (Option ℕ)
downcast t v =
    if is t v.type_id
    then (do rc ← rc_from_rc_bytes v.bytes; drop v; pure (some rc))
    else (do drop v; pure none)
