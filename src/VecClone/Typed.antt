-- ===== src/VecClone/Typed.antt =====
-- The operations of `VecClone` that know the type of the elements (src/vec_clone.rs).
-- The result `true` stands for `Some(self)`, and `false` for `None`.
use buffer.Common.{
  ℕ, ◌-◌, List, [], ◌++◌, Bool, true, false, Option, none, some, leb, if◌then◌else◌, drop, Outcome,
  ok,
}
use buffer.Common.Outcomes
use buffer.Common.Effects.{Eff, pure, lift, modify, ◌>>=◌, ◌>>◌}
use buffer.Std.Platform.{Platform, mul_usize}
use buffer.Std.Vec
use buffer.Std.Vec.{Vec, vec}
use buffer.Bytes.{Repr, RefMut}
use buffer.Traits.{Impls, clone_bytes, clone_from_bytes, drop_bytes}
use buffer.Elements.{drop_each, push_clones, assign_clones, clone_slice, repeat_value}
use buffer.VecCopy as Inner
use buffer.VecCopy.{VecCopy, with_items, reserve_bytes, byte_chunks_mut}
use buffer.VecCopy.Build
use buffer.VecCopy.Update
use buffer.VecCopy.Access
use buffer.VecCopy.Convert
use buffer.VecCopy.Convert.{Reinterpret}
use buffer.VecClone.{drop_all, VecClone, with_elements}

module _ {A W : Type 0} (t : Repr A) (impls : Impls A W) where
  -- The functions of `T` beside a buffer of its values.
  abbrev pub with_fns : VecCopy → VecClone W
  with_fns elements = record {
    elements = elements;
    clone_fn = clone_bytes t impls;
    clone_from_fn = clone_from_bytes t impls;
    drop_fn = drop_bytes t impls;
  }

  unfoldable pub with_type : Outcome (VecClone W)
  with_type = Outcomes.◌>>=◌ (Build.with_type_non_copy t) (λ v. ok (with_fns v))

  unfoldable pub with_capacity : Platform → ℕ → Outcome (VecClone W)
  with_capacity p n = Outcomes.◌>>=◌ (Build.with_capacity_non_copy p t n) (λ v. ok (with_fns v))

  unfoldable pub from_vec : Platform → Vec A → Outcome (VecClone W)
  from_vec p v = Outcomes.◌>>=◌ (Build.from_vec_non_copy p t v) (λ d. ok (with_fns d))

  unfoldable pub with_size : Platform → ℕ → A → Eff W (VecClone W)
  with_size p n def = do
    values ← repeat_value impls n def
    d ← lift (Build.from_vec_non_copy p t (vec values n))
    pure (with_fns d)

  -- `VecCopy::from_slice_non_copy` over clones of the elements.
  unfoldable pub from_slice : Platform → List A → Eff W (VecClone W)
  from_slice p slice = do
    cloned ← clone_slice impls slice
    d ← lift (Build.from_slice_non_copy p t cloned)
    pure (with_fns d)

module _ {A W : Type 0} (t : Repr A) where
  -- `none` is the `None` of a type that does not match. `check` owns the buffer.
  unfoldable pub check_ref : VecClone W → Option (VecClone W)
  check_ref v = elim (Inner.check_ref t v.elements) [ none ↦ none | some _ ↦ some v ]

  unfoldable pub check_mut : VecClone W → Option (VecClone W)
  check_mut v = elim (Inner.check_mut t v.elements) [ some _ ↦ some v | none ↦ none ]

  -- A buffer of another type is dropped.
  unfoldable pub check : VecClone W → Eff W (Option (VecClone W))
  check v = elim (Inner.check_ref t v.elements) [
    | some _ ↦ pure (some v)
    | none ↦ do drop_all v; pure none
  ]

module _ (p : Platform) {A W : Type 0} (t : Repr A) (impls : Impls A W) where
  -- `VecCopy::push` forgets an element once it is past the type check, and drops it otherwise.
  unfoldable pub push : VecClone W → A → Eff W (VecClone W × Bool)
  push v element = elim (Inner.check_ref t v.elements) [
    | none ↦ do modify (impls.drop element); pure (v, false)
    | some _ ↦ do
      (d, pushed) ← lift (Update.push p t v.elements element)
      pure (with_elements v d, pushed)
  ]

  -- The value is dropped at the end, on each way out.
  unfoldable pub resize : VecClone W → ℕ → A → Eff W (VecClone W × Bool)
  resize v new_len value = elim (Inner.check_ref t v.elements) [
    | none ↦ do modify (impls.drop value); pure (v, false)
    | some _ ↦ do
      let size_t = t.size_of
      n ← lift (Inner.len p v.elements)
      if leb n new_len
          then (do
            let diff = new_len - n
            bytes ← lift (mul_usize p diff size_t)
            d ← lift (reserve_bytes p v.elements bytes)
            d' ← push_clones p t impls diff d value
            modify (impls.drop value)
            pure (with_elements v d', true))
          else (do
            elems ← lift (byte_chunks_mut v.elements)
            drop_each v.drop_fn (drop new_len elems.value)
            bytes ← lift (mul_usize p new_len size_t)
            items ← lift (Vec.resize p v.elements.items bytes 0)
            modify (impls.drop value)
            pure (with_elements v (with_items v.elements items), true))
  ]

  unfoldable pub fill : VecClone W → A → Eff W (VecClone W × Bool)
  fill v def = do
    r ← lift (Access.iter_mut p t v.elements)
    elim r [
      | none ↦ do modify (impls.drop def); pure (v, false)
      | some slice ↦ do
        filled ← assign_clones impls def slice.value
        modify (impls.drop def)
        pure (with_elements v (slice.put filled), true)
    ]

  unfoldable pub append_to_vec : VecClone W → List A → Eff W (Option (List A))
  append_to_vec v vec = do
    r ← lift (Access.as_slice p t v.elements)
    elim r [
      | none ↦ pure none
      | some slice ↦ do cloned ← clone_slice impls slice; pure (some (vec ++ cloned))
    ]

  unfoldable pub clone_into_vec : VecClone W → Eff W (Option (List A))
  clone_into_vec v = append_to_vec v []

module _ {A W : Type 0} {t : Repr A} (r : Reinterpret t) where
  -- Nothing is dropped: the elements move into the vector, and of a buffer of another type they
  -- are lost.
  unfoldable pub into_vec : VecClone W → Outcome (Option (Vec A))
  into_vec v = Convert.into_vec r v.elements

module _ (p : Platform) {A W : Type 0} (t : Repr A) where
  unfoldable pub as_slice : VecClone W → Outcome (Option (List A))
  as_slice v = Access.as_slice p t v.elements

  unfoldable pub as_mut_slice : VecClone W → Outcome (Option (RefMut (List A) (VecClone W)))
  as_mut_slice v = Outcomes.◌>>=◌ (Access.as_mut_slice p t v.elements) (λ r. elim r [
    | none ↦ ok none
    | some s ↦ ok (some (record { value = s.value; put = λ ys. with_elements v (s.put ys) }))
  ])

  unfoldable pub get_ref : VecClone W → ℕ → Outcome (Option A)
  get_ref v i = Access.get_ref p t v.elements i

  unfoldable pub get_mut : VecClone W → ℕ → Outcome (Option (RefMut A (VecClone W)))
  get_mut v i = Outcomes.◌>>=◌ (Access.get_mut p t v.elements i) (λ r. elim r [
    | none ↦ ok none
    | some s ↦ ok (some (record { value = s.value; put = λ y. with_elements v (s.put y) }))
  ])

  unfoldable pub iter : VecClone W → Outcome (Option (List A))
  iter v = Access.iter p t v.elements

  unfoldable pub iter_mut : VecClone W → Outcome (Option (RefMut (List A) (VecClone W)))
  iter_mut v = Outcomes.◌>>=◌ (Access.iter_mut p t v.elements) (λ r. elim r [
    | none ↦ ok none
    | some s ↦ ok (some (record { value = s.value; put = λ ys. with_elements v (s.put ys) }))
  ])
