-- ===== src/VecDyn.antt =====
-- `VecDyn` of src/vec_dyn.rs: a buffer of values of one type that is known at run time, which
-- clones, compares and drops them by the functions of a table. This file has the structure, and
-- the operations that do not know the type of the elements.
pub mod Build
pub mod Typed
pub mod Laws
use buffer.Common.{
  ℕ, ◌+◌, List, [], ◌∷◌, ◌++◌, Bool, true, false, map, ◌==◌, if◌then◌else◌, length, take, drop, ok,
  Outcome, replicate,
}
use buffer.Common.Outcomes
use buffer.Common.Effects.{Eff, pure, lift, ◌>>=◌, ◌>>◌}
use buffer.Std.Platform.{Platform}
use buffer.Std.Vec
use buffer.Std.Vec.{Vec, vec}
use buffer.Std.Slice.{chunks_exact, concat}
use buffer.Bytes.{Repr, RefMut}
use buffer.Traits.{VTable}
use buffer.Value.{BoxValue, ValueRef, ValueMut, as_ref}
use buffer.Value.Shared
use buffer.Value.Exclusive
use buffer.Elements.{drop_each, clone_from_each}
use buffer.VecCopy as Inner
use buffer.VecCopy.{VecCopy, with_items, byte_chunks, byte_chunks_mut}

-- `elements` is the field `data` of the source.
pub record VecDyn (W : Type 0) : Type 0 where
  pub elements : VecCopy
  pub vtable : VTable W

module _ {W : Type 0} where
  -- The same table over another buffer.
  abbrev pub with_data : VecDyn W → VecCopy → VecDyn W
  with_data v elements = record v { elements = elements }

  -- `Drop::drop`
  unfoldable pub drop_all : VecDyn W → Eff W (Unit {0})
  drop_all v = do elems ← lift (byte_chunks_mut v.elements); drop_each v.vtable.drop_fn elems.value

  unfoldable pub clear : VecDyn W → Eff W (VecDyn W)
  clear v = do
    elems ← lift (byte_chunks_mut v.elements)
    drop_each v.vtable.drop_fn elems.value
    pure (with_data v (with_items v.elements (Vec.clear v.elements.items)))

  -- The closure of `Clone::clone`: `bytes.to_vec()`, whose elements are then assigned to.
  unfoldable pub data_clone : VecDyn W → List ℕ → Eff W (Vec ℕ)
  data_clone v bytes = do
    srcs ← lift (byte_chunks v.elements)
    dsts ← lift (chunks_exact bytes v.elements.element_size)
    dsts' ← clone_from_each v.vtable.clone_from_fn srcs dsts
    let new_data = concat dsts' ++ drop (length (concat dsts)) bytes
    pure (vec new_data (length bytes))

  -- `Clone::clone`
  unfoldable pub clone : VecDyn W → Eff W (VecDyn W)
  clone v = do elements ← Inner.clone_with v.elements (data_clone v); pure (with_data v elements)

  unfoldable pub iter : VecDyn W → Outcome (List (ValueRef W))
  iter v =
      Outcomes.◌>>=◌ (byte_chunks v.elements) (λ cs.
        ok (map (λ bytes. Shared.from_raw_parts bytes v.elements.element_type_id v.vtable) cs))

  bytes_of : ValueMut W → List ℕ
  bytes_of m = m.bytes

  unfoldable pub iter_mut : VecDyn W → Outcome (RefMut (List (ValueMut W)) (VecDyn W))
  unfolding bytes_of
  iter_mut v = Outcomes.◌>>=◌ (byte_chunks_mut v.elements) (λ cs. ok (record {
    value =
        map (λ bytes. Exclusive.from_raw_parts bytes v.elements.element_type_id v.vtable) cs.value;
    put = λ ms. with_data v (cs.put (map bytes_of ms));
  }))

  -- `iter.zip(other).all(|(this, that)| this == that)`, which stops at the first that differ.
  unfoldable pub all_eq : List (ValueRef W) → List (ValueRef W) → Outcome Bool
  all_eq [] others = ok true
  all_eq (this ∷ rest) [] = ok true
  all_eq (this ∷ rest) (that ∷ others) =
      Outcomes.◌>>=◌ (Shared.eq this that)
        (λ same. elim same [ false ↦ ok false | true ↦ all_eq rest others ])

  -- `PartialEq::eq`
  unfoldable pub eq : VecDyn W → VecDyn W → Outcome Bool
  eq v other =
      Outcomes.◌>>=◌ (iter v) (λ these. Outcomes.◌>>=◌ (iter other) (λ those. all_eq these those))

  -- The elements are dropped by the buffer, and the value is not dropped. One of another type is.
  -- The result `true` stands for `Some(self)`, and `false` for `None`.
  unfoldable pub push_value : Platform → VecDyn W → BoxValue W → Eff W (VecDyn W × Bool)
  push_value p v value =
      if v.elements.element_type_id == value.type_id
      then (do
        items ← lift (Vec.extend_from_slice p v.elements.items value.bytes)
        pure (with_data v (with_items v.elements items), true))
      else (do value.vtable.drop_fn value.bytes; pure (v, false))

  -- The value is cloned into the room made for it, by the table of the buffer.
  unfoldable pub push_cloned : Platform → VecDyn W → ValueRef W → Eff W (VecDyn W × Bool)
  push_cloned p v value =
      if v.elements.element_type_id == value.type_id
      then (do
        let orig_len = length v.elements.items.items
        items ← lift (Vec.resize p v.elements.items (orig_len + length value.bytes) 0)
        cloned ← v.vtable.clone_into_raw_fn value.bytes (drop orig_len items.items)
        let bytes = take orig_len items.items ++ cloned
        pure (with_data v (with_items v.elements (vec bytes items.capacity)), true))
      else pure (v, false)

module _ {W : Type 0} where
  abbrev pub element_type_id : VecDyn W → ℕ
  element_type_id v = v.elements.element_type_id

  abbrev pub element_size : VecDyn W → ℕ
  element_size v = v.elements.element_size

  abbrev pub byte_capacity : VecDyn W → ℕ
  byte_capacity v = Inner.byte_capacity v.elements

  unfoldable pub is_empty : VecDyn W → Bool
  is_empty v = Inner.is_empty v.elements

module _ {W : Type 0} (p : Platform) where
  -- `append(&mut self, buf: &mut VecDyn<V>)`: both buffers after it.
  unfoldable pub append : VecDyn W → VecDyn W → Outcome (VecDyn W × VecDyn W × Bool)
  append v buf =
      Outcomes.◌>>=◌ (Inner.append p v.elements buf.elements)
        (λ r. ok (with_data v r.0, with_data buf r.1, r.2))

  unfoldable pub rotate_left : VecDyn W → ℕ → Outcome (VecDyn W)
  rotate_left v mid =
      Outcomes.◌>>=◌ (Inner.rotate_left p v.elements mid) (λ elements. ok (with_data v elements))

  unfoldable pub rotate_right : VecDyn W → ℕ → Outcome (VecDyn W)
  rotate_right v k =
      Outcomes.◌>>=◌ (Inner.rotate_right p v.elements k) (λ elements. ok (with_data v elements))

  unfoldable pub len : VecDyn W → Outcome ℕ
  len v = Inner.len p v.elements

  unfoldable pub get : VecDyn W → ℕ → Outcome (ValueRef W)
  get v i = Outcomes.◌>>◌ (Inner.debug_assert_index p v.elements i) (
      Outcomes.◌>>=◌ (Inner.get_bytes p v.elements i)
        (λ bytes. ok (Shared.from_raw_parts bytes v.elements.element_type_id v.vtable)))

  unfoldable pub get_mut : VecDyn W → ℕ → Outcome (RefMut (ValueMut W) (VecDyn W))
  get_mut v i = Outcomes.◌>>◌ (Inner.debug_assert_index p v.elements i) (
      Outcomes.◌>>=◌ (Inner.get_bytes_mut p v.elements i) (λ bytes. ok (record {
        value = Exclusive.from_raw_parts bytes.value v.elements.element_type_id v.vtable;
        put = λ (m : ValueMut W). with_data v (bytes.put m.bytes);
      })))
