-- ===== src/CloneValue/ArcValue.antt =====
-- `ArcValue` of src/clone_value.rs: a type-erased value behind a counted pointer.
pub mod Laws
use buffer.Common.{ℕ, List, Option, none, some, if◌then◌else◌}
use buffer.Common.Effects.{Eff, pure, ◌>>=◌, ◌>>◌}
use buffer.Std.Rc
use buffer.Std.Rc.{Heap, in_world}
use buffer.Bytes.{Repr}
use buffer.Bytes.Counted.{arc_into_arc_bytes, arc_from_arc_bytes}
use buffer.Traits.{Impls, drop_bytes}
use buffer.Value.Copy.{is}

-- `bytes` is the pointer.
pub record ArcValue (W : Type 0) : Type 0 where
  pub bytes : ℕ
  pub type_id : ℕ
  pub drop_fn : List ℕ → Eff W (Unit {0})

module _ {W : Type 0} where
  -- The derived `Clone`.
  unfoldable pub clone : ArcValue W → Eff (Heap W) (ArcValue W)
  clone v = do bytes ← Rc.clone v.bytes; pure (record v { bytes = bytes })

  -- `if let Some(bytes) = Arc::get_mut(&mut self.bytes)`
  unfoldable pub drop_contents :
      (List ℕ → Eff W (Unit {0})) → Option (List ℕ) → Eff (Heap W) (Unit {0})
  drop_contents drop_fn none = pure tt
  drop_contents drop_fn (some bytes) = in_world (drop_fn bytes)

  -- `Drop for ArcValue`
  unfoldable pub drop : ArcValue W → Eff (Heap W) (Unit {0})
  unfolding drop_contents
  drop v = do contents ← Rc.get_mut v.bytes; drop_contents v.drop_fn contents; Rc.drop v.bytes

-- `ArcValue::new`, which is also `From<Arc<T>> for ArcValue`. `B` is the type `Arc<T>`, whose
-- `drop_bytes` the value gets.
unfoldable pub new : {A B W : Type 0} → Repr A → Repr B → Impls B W → ℕ → Eff (Heap W) (ArcValue W)
new t arc arc_impls typed = do
  bytes ← arc_into_arc_bytes t typed
  pure (record { bytes = bytes; type_id = t.type_id; drop_fn = drop_bytes arc arc_impls })

-- `ArcValue::downcast`: the value that the closure takes is dropped at its end.
unfoldable pub downcast : {A W : Type 0} → Repr A → ArcValue W → Eff (Heap W) (Option ℕ)
downcast t v =
    if is t v.type_id
    then (do arc ← arc_from_arc_bytes v.bytes; drop v; pure (some arc))
    else (do drop v; pure none)
