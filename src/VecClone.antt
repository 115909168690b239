-- ===== src/VecClone.antt =====
-- `VecClone` of src/vec_clone.rs: a buffer of values of one type that is known at run time, which
-- clones and drops them by functions that it carries. This file has the structure, and the
-- operations that do not know the type of the elements.
pub mod Typed
pub mod Equality
pub mod Laws
use buffer.Common.{ℕ, List, ◌++◌, Bool, map, length, drop, ok, Outcome, true}
use buffer.Common.Outcomes
use buffer.Common.Effects.{Eff, pure, lift, ◌>>=◌, ◌>>◌}
use buffer.Std.Platform.{Platform}
use buffer.Std.Vec
use buffer.Std.Vec.{Vec, vec}
use buffer.Std.Slice.{chunks_exact, concat}
use buffer.Bytes.{RefMut}
use buffer.CloneValue.{CloneValueRef, CloneValueMut, ref_from_raw_parts, mut_from_raw_parts}
use buffer.Elements.{drop_each, clone_from_each}
use buffer.VecCopy as Inner
use buffer.VecCopy.{VecCopy, with_items, byte_chunks, byte_chunks_mut}

-- `elements` is the field `data` of the source.
pub record VecClone (W : Type 0) : Type 0 where
  pub elements : VecCopy
  pub clone_fn : List ℕ → Eff W (List ℕ)
  pub clone_from_fn : List ℕ → List ℕ → Eff W (List ℕ)
  pub drop_fn : List ℕ → Eff W (Unit {0})

module _ {W : Type 0} where
  -- The same functions over another buffer.
  abbrev pub with_elements : VecClone W → VecCopy → VecClone W
  with_elements v elements = record v { elements = elements }

  abbrev pub no_drop : List ℕ → Eff W (Unit {0})
  no_drop _ = pure tt

  abbrev pub keep_dst : List ℕ → List ℕ → Eff W (List ℕ)
  keep_dst dst _ = pure dst

  -- `From<VecCopy>`: the functions of plain data. A `clone_from` leaves the destination as it is.
  unfoldable pub from_vec_copy : VecCopy → VecClone W
  from_vec_copy v = record {
    elements = v;
    clone_fn = pure;
    clone_from_fn = keep_dst;
    drop_fn = no_drop;
  }

  unfoldable pub with_type_from : VecClone W → VecClone W
  with_type_from other = with_elements other (Inner.Build.with_type_from other.elements)

  -- `Drop::drop`
  unfoldable pub drop_all : VecClone W → Eff W (Unit {0})
  drop_all v = do elems ← lift (byte_chunks_mut v.elements); drop_each v.drop_fn elems.value

  unfoldable pub clear : VecClone W → Eff W (VecClone W)
  clear v = do
    elems ← lift (byte_chunks_mut v.elements)
    drop_each v.drop_fn elems.value
    pure (with_elements v (with_items v.elements (Vec.clear v.elements.items)))

  -- The closure of `Clone::clone`: `bytes.to_vec()`, whose elements are then assigned to.
  unfoldable pub data_clone : VecClone W → List ℕ → Eff W (Vec ℕ)
  data_clone v bytes = do
    srcs ← lift (byte_chunks v.elements)
    dsts ← lift (chunks_exact bytes v.elements.element_size)
    dsts' ← clone_from_each v.clone_from_fn srcs dsts
    let new_data = concat dsts' ++ drop (length (concat dsts)) bytes
    pure (vec new_data (length bytes))

  -- `Clone::clone`
  unfoldable pub clone : VecClone W → Eff W (VecClone W)
  clone v = do
    elements ← Inner.clone_with v.elements (data_clone v)
    pure (with_elements v elements)

  unfoldable pub iter_value_ref : VecClone W → Outcome (List CloneValueRef)
  iter_value_ref v =
      Outcomes.◌>>=◌ (byte_chunks v.elements)
        (λ cs. ok (map (λ bytes. ref_from_raw_parts bytes v.elements.element_type_id) cs))

  bytes_of : CloneValueMut W → List ℕ
  bytes_of m = m.bytes

  unfoldable pub iter_value_mut :
      VecClone W → Outcome (RefMut (List (CloneValueMut W)) (VecClone W))
  unfolding bytes_of
  iter_value_mut v = Outcomes.◌>>=◌ (byte_chunks_mut v.elements) (λ cs. ok (record {
    value =
        map (λ bytes. mut_from_raw_parts bytes v.elements.element_type_id v.clone_from_fn) cs.value;
    put = λ ms. with_elements v (cs.put (map bytes_of ms));
  }))

module _ {W : Type 0} where
  abbrev pub element_type_id : VecClone W → ℕ
  element_type_id v = v.elements.element_type_id

  abbrev pub element_size : VecClone W → ℕ
  element_size v = v.elements.element_size

  abbrev pub byte_capacity : VecClone W → ℕ
  byte_capacity v = Inner.byte_capacity v.elements

  unfoldable pub is_empty : VecClone W → Bool
  is_empty v = Inner.is_empty v.elements

module _ {W : Type 0} (p : Platform) where
  -- `append(&mut self, buf: &mut VecClone)`: both buffers after it.
  unfoldable pub append : VecClone W → VecClone W → Outcome (VecClone W × VecClone W × Bool)
  append v buf =
      Outcomes.◌>>=◌ (Inner.append p v.elements buf.elements)
        (λ r. ok (with_elements v r.0, with_elements buf r.1, r.2))

  unfoldable pub rotate_left : VecClone W → ℕ → Outcome (VecClone W)
  rotate_left v mid =
      Outcomes.◌>>=◌ (Inner.rotate_left p v.elements mid)
        (λ elements. ok (with_elements v elements))

  unfoldable pub rotate_right : VecClone W → ℕ → Outcome (VecClone W)
  rotate_right v k =
      Outcomes.◌>>=◌ (Inner.rotate_right p v.elements k) (λ elements. ok (with_elements v elements))

  unfoldable pub len : VecClone W → Outcome ℕ
  len v = Inner.len p v.elements

  unfoldable pub value_ref : VecClone W → ℕ → Outcome CloneValueRef
  value_ref v i = Outcomes.◌>>◌ (Inner.debug_assert_index p v.elements i) (
      Outcomes.◌>>=◌ (Inner.get_bytes p v.elements i)
        (λ bytes. ok (ref_from_raw_parts bytes v.elements.element_type_id)))

  unfoldable pub value_mut : VecClone W → ℕ → Outcome (RefMut (CloneValueMut W) (VecClone W))
  value_mut v i = Outcomes.◌>>◌ (Inner.debug_assert_index p v.elements i) (
      Outcomes.◌>>=◌ (Inner.get_bytes_mut p v.elements i) (λ bytes. ok (record {
        value = mut_from_raw_parts bytes.value v.elements.element_type_id v.clone_from_fn;
        put = λ (m : CloneValueMut W). with_elements v (bytes.put m.bytes);
      })))
