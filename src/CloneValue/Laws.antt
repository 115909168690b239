-- ===== src/CloneValue/Laws.antt =====
-- What the operations of clonable values come to on a typed value.
use buffer.Common.{◌≡◌, refl, ok, some, ==-true}
use buffer.Common.Effects.{lift, ◌>>=◌}
use buffer.Bytes.{Repr}
use buffer.Traits.{Impls}
use buffer.Traits.Laws.{box_into_box_bytes_lem, box_from_box_bytes_lem, drop_bytes_lem}
use buffer.Value.Copy.{is}
use buffer.CloneValue.{new, downcast, drop}

module _ {A W : Type 0} (t : Repr A) (impls : Impls A W) where
  -- `downcast` of a `BoxValue` of `clone_value.rs`, made of `x`, at the type of `x` returns `x`
  -- after it has dropped it.
  pub downcast-new :
      (x : A) (w : W) → (lift (new t impls x) >>= downcast t) w ≡ ok (some x, impls.drop x w)
  unfolding new downcast drop is
  downcast-new x w = rw (
    box_into_box_bytes_lem t x,
    ==-true t.type_id t.type_id refl,
    box_from_box_bytes_lem t x,
    drop_bytes_lem t impls x w,
  )
