-- ===== src/Conversions.antt =====
-- The conversions by `From` and `Into` of vectors and slices into the three buffers (src/lib.rs,
-- src/vec_dyn.rs, src/vec_clone.rs), and of the buffers into vectors.
pub mod Laws
use buffer.Common.{List, Option, Outcome}
use buffer.Common.Effects.{Eff}
use buffer.Std.Platform.{Platform}
use buffer.Std.Vec.{Vec}
use buffer.Bytes.{Repr}
use buffer.Traits.{Impls}
use buffer.VecCopy.{VecCopy}
use buffer.VecCopy.Build
use buffer.VecCopy.Convert
use buffer.VecCopy.Convert.{Reinterpret}
use buffer.VecDyn.{VecDyn}
use buffer.VecDyn.Build as DynBuild
use buffer.VecDyn.Typed as DynTyped
use buffer.VecClone.{VecClone}
use buffer.VecClone.Typed as CloneTyped

module _ (p : Platform) {A : Type 0} (t : Repr A) where
  -- `From<Vec<T>> for VecCopy`
  unfoldable pub vec_copy_from : Vec A → Outcome VecCopy
  vec_copy_from vec = Build.from_vec p t vec

  -- `From<&[T]> for VecCopy`
  unfoldable pub vec_copy_from_ref : List A → Outcome VecCopy
  vec_copy_from_ref slice = Build.from_slice p t slice

module _ {A W : Type 0} (t : Repr A) (impls : Impls A W) (p : Platform) where
  -- `From<Vec<T>> for VecDyn<V>`
  unfoldable pub vec_dyn_from : Vec A → Outcome (VecDyn W)
  vec_dyn_from vec = DynBuild.from_vec t impls p vec

  -- `From<&[T]> for VecDyn<V>`
  unfoldable pub vec_dyn_from_ref : List A → Eff W (VecDyn W)
  vec_dyn_from_ref slice = DynBuild.from_slice t impls p slice

  -- `From<Vec<T>> for VecClone`
  unfoldable pub vec_clone_from : Vec A → Outcome (VecClone W)
  vec_clone_from vec = CloneTyped.from_vec t impls p vec

  -- `From<&[T]> for VecClone`
  unfoldable pub vec_clone_from_ref : List A → Eff W (VecClone W)
  vec_clone_from_ref slice = CloneTyped.from_slice t impls p slice

-- `Into<Option<Vec<T>>>`
module _ {A : Type 0} {t : Repr A} (r : Reinterpret t) where
  unfoldable pub vec_copy_into : VecCopy → Outcome (Option (Vec A))
  vec_copy_into v = Convert.into_vec r v

  unfoldable pub vec_dyn_into : {W : Type 0} → VecDyn W → Outcome (Option (Vec A))
  vec_dyn_into v = DynTyped.into_vec r v

  unfoldable pub vec_clone_into : {W : Type 0} → VecClone W → Outcome (Option (Vec A))
  vec_clone_into v = CloneTyped.into_vec r v
