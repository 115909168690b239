-- ===== src/VecDyn/Typed.antt =====
-- The operations of `VecDyn` that know the type of the elements (src/vec_dyn.rs).
-- The result `true` stands for `Some(self)`, and `false` for `None`.
use buffer.Common.{
  ℕ, ◌-◌, List, [], ◌++◌, Bool, true, false, Option, none, some, leb, if◌then◌else◌, drop, Outcome,
  ok,
}
use buffer.Common.Outcomes
use buffer.Common.Effects.{Eff, pure, lift, modify, ◌>>=◌, ◌>>◌}
use buffer.Std.Platform.{Platform, mul_usize}
use buffer.Std.Vec
use buffer.Std.Vec.{Vec, vec}
use buffer.Bytes.{Repr, RefMut}
use buffer.Traits.{Impls}
use buffer.VecCopy as Inner
use buffer.VecCopy.{VecCopy, with_items, reserve_bytes, byte_chunks_mut}
use buffer.VecCopy.Update
use buffer.VecCopy.Access
use buffer.VecCopy.Convert
use buffer.VecCopy.Convert.{Reinterpret}
use buffer.VecDyn.{drop_all, VecDyn, with_data}
use buffer.Elements.{drop_each, push_clones, assign_clones, clone_slice}

module _ {A W : Type 0} (t : Repr A) where
  -- `none` is the `None` of a type that does not match. `check` owns the buffer.
  unfoldable pub check_ref : VecDyn W → Option (VecDyn W)
  check_ref v = elim (Inner.check_ref t v.elements) [ none ↦ none | some _ ↦ some v ]

  unfoldable pub check_mut : VecDyn W → Option (VecDyn W)
  check_mut v = elim (Inner.check_mut t v.elements) [ some _ ↦ some v | none ↦ none ]

  -- A buffer of another type is dropped.
  unfoldable pub check : VecDyn W → Eff W (Option (VecDyn W))
  check v = elim (Inner.check_ref t v.elements) [
    | some _ ↦ pure (some v)
    | none ↦ do drop_all v; pure none
  ]

module _ (p : Platform) {A W : Type 0} (t : Repr A) (impls : Impls A W) where
  -- `VecCopy::push` forgets an element once it is past the type check, and drops it otherwise.
  unfoldable pub push : VecDyn W → A → Eff W (VecDyn W × Bool)
  push v element = elim (Inner.check_ref t v.elements) [
    | none ↦ do modify (impls.drop element); pure (v, false)
    | some _ ↦ do
      (elements, pushed) ← lift (Update.push p t v.elements element)
      pure (with_data v elements, pushed)
  ]

  -- The value is dropped at the end, on each way out.
  unfoldable pub resize : VecDyn W → ℕ → A → Eff W (VecDyn W × Bool)
  resize v new_len value = elim (Inner.check_ref t v.elements) [
    | none ↦ do modify (impls.drop value); pure (v, false)
    | some _ ↦ do
      let size_t = t.size_of
      n ← lift (Inner.len p v.elements)
      if leb n new_len
          then (do
            let diff = new_len - n
            bytes ← lift (mul_usize p diff size_t)
            elements ← lift (reserve_bytes p v.elements bytes)
            elements' ← push_clones p t impls diff elements value
            modify (impls.drop value)
            pure (with_data v elements', true))
          else (do
            elems ← lift (byte_chunks_mut v.elements)
            drop_each v.vtable.drop_fn (drop new_len elems.value)
            bytes ← lift (mul_usize p new_len size_t)
            items ← lift (Vec.resize p v.elements.items bytes 0)
            modify (impls.drop value)
            pure (with_data v (with_items v.elements items), true))
  ]

  unfoldable pub fill : VecDyn W → A → Eff W (VecDyn W × Bool)
  fill v def = do
    r ← lift (Access.iter_mut p t v.elements)
    elim r [
      | none ↦ do modify (impls.drop def); pure (v, false)
      | some slice ↦ do
        filled ← assign_clones impls def slice.value
        modify (impls.drop def)
        pure (with_data v (slice.put filled), true)
    ]

  unfoldable pub append_cloned_to_vec : VecDyn W → List A → Eff W (Option (List A))
  append_cloned_to_vec v vec = do
    r ← lift (Access.as_slice p t v.elements)
    elim r [
      | none ↦ pure none
      | some slice ↦ do cloned ← clone_slice impls slice; pure (some (vec ++ cloned))
    ]

  unfoldable pub clone_into_vec : VecDyn W → Eff W (Option (List A))
  clone_into_vec v = append_cloned_to_vec v []

module _ {A W : Type 0} {t : Repr A} (r : Reinterpret t) where
  -- Nothing is dropped: the elements move into the vector, and of a buffer of another type they
  -- are lost.
  unfoldable pub into_vec : VecDyn W → Outcome (Option (Vec A))
  into_vec v = Convert.into_vec r v.elements

module _ {W : Type 0} (p : Platform) {A : Type 0} (t : Repr A) where
  unfoldable pub as_slice : VecDyn W → Outcome (Option (List A))
  as_slice v = Access.as_slice p t v.elements

  unfoldable pub as_mut_slice : VecDyn W → Outcome (Option (RefMut (List A) (VecDyn W)))
  as_mut_slice v = Outcomes.◌>>=◌ (Access.as_mut_slice p t v.elements) (λ r. elim r [
    | none ↦ ok none
    | some s ↦ ok (some (record { value = s.value; put = λ ys. with_data v (s.put ys) }))
  ])

  unfoldable pub get_ref_as : VecDyn W → ℕ → Outcome (Option A)
  get_ref_as v i = Access.get_ref p t v.elements i

  unfoldable pub get_mut_as : VecDyn W → ℕ → Outcome (Option (RefMut A (VecDyn W)))
  get_mut_as v i = Outcomes.◌>>=◌ (Access.get_mut p t v.elements i) (λ r. elim r [
    | none ↦ ok none
    | some s ↦ ok (some (record { value = s.value; put = λ y. with_data v (s.put y) }))
  ])

  unfoldable pub iter_as : VecDyn W → Outcome (Option (List A))
  iter_as v = Access.iter p t v.elements

  unfoldable pub iter_mut_as : VecDyn W → Outcome (Option (RefMut (List A) (VecDyn W)))
  iter_mut_as v = Outcomes.◌>>=◌ (Access.iter_mut p t v.elements) (λ r. elim r [
    | none ↦ ok none
    | some s ↦ ok (some (record { value = s.value; put = λ ys. with_data v (s.put ys) }))
  ])
