-- ===== src/DynDerive/Generics.antt =====
-- `process_generics` of dyn-derive/src/lib.rs, with its helpers: generic types become trait objects.
-- `parse` is `syn::parse`.
use buffer.Common.{
  ◌>>=◌, ◌>>◌, Outcome, ok, assert, Option, none, some, List, [], ◌∷◌, Bool, true, false,
  if◌then◌else◌,
}
use buffer.DynDerive.Syntax.{
  no_arguments, Segment, TypePath, Bound, SynType, array, bare_fn, group, impl_trait, paren, path,
  ptr, reference, slice, trait_object, tuple, other, Types, nil, cons, ReturnType, default, returns,
  Quoted, boxed_dyn, dyn, unwrap,
}
use buffer.DynDerive.SelfType.{is_none, is_self}
use Prim.Native.String.{String}
use text.Mathlib.Text.{◌==◌ as str_eq}

-- The bounds of each generic type. The last one inserted stands first and hides the others.
abbrev pub GenericsMap : Type 0
GenericsMap = List (String × List Bound)

abbrev pub insert : String → List Bound → GenericsMap → GenericsMap
insert n bounds generics = (n, bounds) ∷ generics

abbrev pub get : String → GenericsMap → Option (List Bound)
get n [] = none
get n ((m, bounds) ∷ generics) = if str_eq m n then some bounds else get n generics

unfoldable pub check_generic_segments : Bool → List Segment → Outcome (Unit {0})
check_generic_segments false (seg ∷ []) = assert (is_self seg)
check_generic_segments _ _ = ok tt

unfoldable pub check_generic_path : TypePath → Outcome (Unit {0})
unfolding check_generic_segments
check_generic_path p = do
  assert (is_none p.qself)
  check_generic_segments p.path.leading_colon p.path.segments

unfoldable mutual
  unfolding check_generic_path

  pub check_for_unsupported_generics : SynType → GenericsMap → Outcome (Unit {0})
  check_for_unsupported_generics (array elem len) generics =
      check_for_unsupported_generics elem generics
  check_for_unsupported_generics (bare_fn inputs output) generics = do
    check_generics inputs generics
    check_generic_output output generics
  check_for_unsupported_generics (group elem) generics =
      check_for_unsupported_generics elem generics
  check_for_unsupported_generics (paren elem) generics =
      check_for_unsupported_generics elem generics
  check_for_unsupported_generics (path p) generics = check_generic_path p
  check_for_unsupported_generics (ptr m elem) generics =
      check_for_unsupported_generics elem generics
  check_for_unsupported_generics (reference l m elem) generics =
      check_for_unsupported_generics elem generics
  check_for_unsupported_generics (slice elem) generics =
      check_for_unsupported_generics elem generics
  check_for_unsupported_generics (tuple elems) generics = check_generics elems generics
  check_for_unsupported_generics (impl_trait bounds) generics = ok tt
  check_for_unsupported_generics (trait_object d bounds) generics = ok tt
  check_for_unsupported_generics (other text) generics = ok tt

  pub check_generics : Types → GenericsMap → Outcome (Unit {0})
  check_generics nil generics = ok tt
  check_generics (cons t ts) generics = do
    check_for_unsupported_generics t generics
    check_generics ts generics

  pub check_generic_output : ReturnType → GenericsMap → Outcome (Unit {0})
  check_generic_output default generics = ok tt
  check_generic_output (returns t) generics = check_for_unsupported_generics t generics

module _ (parse : Quoted → Option SynType) where
  -- The bounds that the map has for the segment, and whether the type is owned.
  unfoldable pub trait_object_of : TypePath → Option (List Bound) → Bool → Outcome SynType
  trait_object_of p none owned = ok (path p)
  trait_object_of p (some bounds) true = unwrap (parse (boxed_dyn bounds))
  trait_object_of p (some bounds) false = unwrap (parse (dyn bounds))

  unfoldable pub process_segments :
      TypePath → Bool → List Segment → GenericsMap → Bool → Outcome SynType
  unfolding trait_object_of
  process_segments p false (seg ∷ []) generics owned =
      if no_arguments seg.arguments
      then trait_object_of p (get seg.ident generics) owned
      else ok (path p)
  process_segments p _ _ generics owned = ok (path p)

  unfoldable pub process_generic_type_path : TypePath → GenericsMap → Bool → Outcome SynType
  unfolding process_segments
  process_generic_type_path p generics owned =
      process_segments p p.path.leading_colon p.path.segments generics owned

  unfoldable pub generic_ref_to_trait_object : SynType → GenericsMap → Outcome SynType
  generic_ref_to_trait_object (path p) generics = process_generic_type_path p generics false
  generic_ref_to_trait_object ty generics = ok ty

  unfoldable pub pass_through_generics : SynType → GenericsMap → Outcome SynType
  pass_through_generics ty generics = do check_for_unsupported_generics ty generics; ok ty

  unfoldable pub process_generics : SynType → GenericsMap → Outcome SynType
  unfolding pass_through_generics
  process_generics (paren elem) generics = do elem ← process_generics elem generics; ok (paren elem)
  process_generics (path p) generics = process_generic_type_path p generics true
  process_generics (ptr m elem) generics = do
    elem ← generic_ref_to_trait_object elem generics
    ok (ptr m elem)
  process_generics (reference l m elem) generics = do
    elem ← generic_ref_to_trait_object elem generics
    ok (reference l m elem)
  process_generics ty generics = pass_through_generics ty generics
