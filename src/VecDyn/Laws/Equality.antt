-- ===== src/VecDyn/Laws/Equality.antt =====
-- The equality of two `VecDyn`.
use buffer.Common.{
  ap₂, inl, inr, Bool-cases, ◌≡◌, refl, ap, sym, ◌∙◌, ◌↔◌, List, [], ◌∷◌, ◌++◌, map, length, ok,
  Bool, true, false, arith, ok-injective,
}
use mathlib.Core.List.{map-map}
use buffer.Bytes.{Repr}
use buffer.Traits.{Impls, build_vtable}
use buffer.Traits.Laws.{eq_bytes_lem}
use buffer.Value.{ValueRef}
use buffer.Value.Shared.{from_raw_parts, eq as ref_eq}
use buffer.VecCopy.Laws.Erased.{byte_chunks_refines}
use buffer.VecDyn.{VecDyn, iter, all_eq, eq}
use buffer.VecDyn.Laws.{HoldsDyn}

-- Two sequences agree as far as both go.
abbrev pub agree : {A : Type 0} → (A → A → Bool) → List A → List A → Bool
agree same [] ys = true
agree same (x ∷ xs) [] = true
agree same (x ∷ xs) (y ∷ ys) = elim (same x y) [ false ↦ false | true ↦ agree same xs ys ]

module _ {A W : Type 0} (t : Repr A) (impls : Impls A W) where
  -- The reference to an element of a buffer.
  element : A → ValueRef W
  element x = from_raw_parts (t.to_bytes x) t.type_id (build_vtable t impls)

  iter_refines : {v : VecDyn W} {xs : List A} → HoldsDyn t impls v xs → iter v ≡ ok (map element xs)
  unfolding iter element
  iter_refines {v} {xs} h =
      rw (byte_chunks_refines t h.holds, iter, h.holds.same_type, h.table)
        (ap ok (map-map _ t.to_bytes xs))

  all_eq_lem :
      (xs ys : List A) → all_eq (map element xs) (map element ys) ≡ ok (agree impls.eq xs ys)
  unfolding all_eq element ref_eq build_vtable
  all_eq_lem [] ys = refl
  all_eq_lem (x ∷ xs) [] = refl
  all_eq_lem (x ∷ xs) (y ∷ ys) = elim (Bool-cases (impls.eq x y)) [
    | inl same ↦ rw (eq_bytes_lem t impls x y, all_eq, same, agree) (all_eq_lem xs ys)
    | inr differ ↦ rw (eq_bytes_lem t impls x y, all_eq, differ, agree)
  ]

  module _ {v u : VecDyn W} {xs ys : List A} (hv : HoldsDyn t impls v xs)
      (hu : HoldsDyn t impls u ys) where
    pub eq_refines : eq v u ≡ ok (agree impls.eq xs ys)
    unfolding eq
    eq_refines = rw (iter_refines hv, eq, iter_refines hu) (all_eq_lem xs ys)

-- A test that decides equality agrees with it on sequences of one length.
agree-↔ :
    {A : Type 0} (same : A → A → Bool)
    → ((x y : A) → (same x y ≡ true) ↔ (x ≡ y))
    → (xs ys : List A) → length xs ≡ length ys
    → (agree same xs ys ≡ true) ↔ (xs ≡ ys)
agree-↔ same decides [] [] h = (λ _. refl, λ _. refl)
agree-↔ same decides [] (y ∷ ys) h = absurd (omega arith)
agree-↔ same decides (x ∷ xs) [] h = absurd (omega arith)
agree-↔ same decides (x ∷ xs) (y ∷ ys) h =
    let (to, from) = agree-↔ same decides xs ys (omega arith) in
    (
      λ e. elim (Bool-cases (same x y)) [
        | inl equal ↦ ap₂ ◌∷◌ ((decides x y).0 equal) (to (rw (equal, agree) at e))
        | inr differ ↦ cc (rw (differ, agree) at e)
      ],
      λ e. rw ((decides x y).1 cc, agree) (from cc),
    )

agree-prefix :
    {A : Type 0} (same : A → A → Bool)
    → ((x : A) → same x x ≡ true)
    → (xs ys : List A) → agree same xs (xs ++ ys) ≡ true
agree-prefix same reflexive [] ys = refl
agree-prefix same reflexive (x ∷ xs) ys = rw (reflexive x) (agree-prefix same reflexive xs ys)

prefix-agree :
    {A : Type 0} (same : A → A → Bool)
    → ((x : A) → same x x ≡ true)
    → (xs ys : List A) → agree same (xs ++ ys) xs ≡ true
prefix-agree same reflexive [] [] = refl
prefix-agree same reflexive [] (y ∷ ys) = refl
prefix-agree same reflexive (x ∷ xs) ys = rw (reflexive x) (prefix-agree same reflexive xs ys)

module _ {A W : Type 0} (t : Repr A) (impls : Impls A W) {v u : VecDyn W} where
  -- Two `VecDyn` that hold as many elements of one type are equal, by `==`, if and only if they
  -- hold the same ones, where the equality of the type decides equality.
  pub eq-same_length :
      {xs ys : List A}
      → HoldsDyn t impls v xs
      → HoldsDyn t impls u ys
      → ((x y : A) → (impls.eq x y ≡ true) ↔ (x ≡ y))
      → length xs ≡ length ys
      → (eq v u ≡ ok true) ↔ (xs ≡ ys)
  eq-same_length {xs} {ys} hv hu decides h =
      let (to, from) = agree-↔ impls.eq decides xs ys h in
      (
        λ e. to (ok-injective (sym (eq_refines t impls hv hu) ∙ e)),
        λ e. eq_refines t impls hv hu ∙ ap ok (from e),
      )

  -- A `VecDyn` that holds `xs` is equal, by `==` in both orders, to one that holds `xs` and any
  -- elements behind them, where the equality of the type is reflexive.
  pub eq-prefix :
      {xs : List A} (ys : List A)
      → HoldsDyn t impls v xs
      → HoldsDyn t impls u (xs ++ ys)
      → ((x : A) → impls.eq x x ≡ true)
      → (eq v u ≡ ok true) × (eq u v ≡ ok true)
  eq-prefix {xs} ys hv hu reflexive = (
    eq_refines t impls hv hu ∙ ap ok (agree-prefix impls.eq reflexive xs ys),
    eq_refines t impls hu hv ∙ ap ok (prefix-agree impls.eq reflexive xs ys),
  )
