-- ===== src/Value/Laws.antt =====
-- What the operations of type-erased values come to on a typed value.
use buffer.Common.{◌≡◌, ◌≢◌, refl, ok, none, some, ==-true, ==-false}
use buffer.Common.Effects.{lift, ◌>>=◌}
use buffer.Bytes.{Repr}
use buffer.Bytes.Laws.{as_bytes_lem}
use buffer.Traits.{Impls, build_vtable}
use buffer.Traits.Laws.{
  box_into_box_bytes_lem, drop_bytes_lem, clone_bytes_lem, clone_from_bytes_lem, eq_bytes_lem,
  box_from_box_bytes_lem,
}
use buffer.Value.{BoxValue, ValueRef, ValueMut, owned}
use buffer.Value.Copy.{is}
use buffer.Value.Boxed
use buffer.Value.Shared
use buffer.Value.Exclusive

module _ {A W : Type 0} (t : Repr A) (impls : Impls A W) where
  -- The box of a value.
  abbrev pub boxed : A → BoxValue W
  boxed x = record { bytes = t.to_bytes x; type_id = t.type_id; vtable = build_vtable t impls }

  -- The references to a value, with tables of their own.
  abbrev pub borrowed : A → ValueRef W
  borrowed x = record {
    bytes = t.to_bytes x;
    type_id = t.type_id;
    vtable = owned (build_vtable t impls);
  }

  abbrev pub borrowed_mut : A → ValueMut W
  borrowed_mut x = record {
    bytes = t.to_bytes x;
    type_id = t.type_id;
    vtable = owned (build_vtable t impls);
  }

  pub new-boxed : (x : A) → Boxed.new t impls x ≡ ok (boxed x)
  unfolding Boxed.new
  new-boxed x = rw (box_into_box_bytes_lem t x, Boxed.new)

  pub new-borrowed : (x : A) → Shared.new t impls x ≡ ok (borrowed x)
  unfolding Shared.new
  new-borrowed x = rw (as_bytes_lem t x, Shared.new)

  pub drop-boxed : (x : A) (w : W) → Boxed.drop (boxed x) w ≡ ok (tt, impls.drop x w)
  unfolding Boxed.drop build_vtable
  drop-boxed x w = drop_bytes_lem t impls x w

  pub clone_then_drop :
      (x : A) (w : W)
      → (Boxed.clone (boxed x) >>= Boxed.drop) w
        ≡ ok (tt, impls.drop (impls.clone x w).0 (impls.clone x w).1)
  unfolding Boxed.clone Boxed.drop build_vtable
  clone_then_drop x w = rw (clone_bytes_lem t impls x w, drop_bytes_lem t impls)

  -- `downcast` of a `BoxValue` of `x` at the type of `x` returns `x` after it has dropped it.
  pub downcast-boxed :
      (x : A) (w : W)
      → (lift (Boxed.new t impls x) >>= Boxed.downcast t) w ≡ ok (some x, impls.drop x w)
  unfolding Boxed.downcast is
  downcast-boxed x w =
      rw (new-boxed x, ==-true t.type_id t.type_id refl, box_from_box_bytes_lem t x, drop-boxed x w)

  pub downcast-other :
      {B : Type 0} (s : Repr B) (x : A) (w : W)
      → t.type_id ≢ s.type_id
      → Boxed.downcast s (boxed x) w ≡ ok (none, impls.drop x w)
  unfolding Boxed.downcast is
  downcast-other s x w differ = rw (==-false t.type_id s.type_id differ, drop-boxed x w)

  -- `clone_from` of a `ValueMut` of `x`, with a `ValueRef` of a `y` of the same type, does what
  -- `clone_from` of the type does with `x` and `y`.
  pub clone_from-borrowed :
      (x y : A) (w : W)
      → Exclusive.clone_from (borrowed_mut x) (borrowed y) w
        ≡ ok (borrowed_mut (impls.clone_from x y w).0, (impls.clone_from x y w).1)
  unfolding Exclusive.clone_from build_vtable
  clone_from-borrowed x y w =
      rw (==-true t.type_id t.type_id refl, clone_from_bytes_lem t impls x y w)

  pub clone_value-borrowed :
      (x : A) (w : W)
      → Shared.clone_value (borrowed x) w ≡ ok (boxed (impls.clone x w).0, (impls.clone x w).1)
  unfolding Shared.clone_value build_vtable
  clone_value-borrowed x w = rw (clone_bytes_lem t impls x w)

  pub eq-borrowed : (x y : A) → Shared.eq (borrowed x) (borrowed y) ≡ ok (impls.eq x y)
  unfolding Shared.eq build_vtable
  eq-borrowed x y = eq_bytes_lem t impls x y
