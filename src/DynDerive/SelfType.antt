-- ===== src/DynDerive/SelfType.antt =====
-- `type_to_bytes` of dyn-derive/src/lib.rs, with its helpers: the type that takes the place of a
-- type which mentions `Self`. `parse` is `syn::parse`.
use buffer.Common.{
  ◌>>=◌, ◌>>◌, Outcome, ok, assert, Option, none, some, List, [], ◌∷◌, Bool, true, false, ◌&&◌,
  if◌then◌else◌,
}
use buffer.DynDerive.Syntax.{
  no_arguments, Segment, TypePath, SynType, array, bare_fn, group, impl_trait, paren, path, ptr,
  reference, slice, trait_object, tuple, other, Types, nil, cons, ReturnType, default, returns,
  Quoted, boxed_bytes, byte_slice, unwrap,
}
use text.Mathlib.Text.{◌==◌ as str_eq}

-- `is_none()` of an option.
abbrev pub is_none {ℓ} : {A : Type ℓ} → Option A → Bool
is_none none = true
is_none (some _) = false

-- `seg.arguments.is_empty() && "Self".to_string() == seg.ident.to_string()`
unfoldable pub is_self : Segment → Bool
is_self seg = no_arguments seg.arguments && str_eq "Self" seg.ident

-- `if path.path.leading_colon.is_none() && path.path.segments.len() == 1`
unfoldable pub check_self_segments : Bool → List Segment → Outcome (Unit {0})
check_self_segments false (seg ∷ []) = assert (is_self seg)
check_self_segments _ _ = ok tt

unfoldable pub check_self_path : TypePath → Outcome (Unit {0})
unfolding check_self_segments
check_self_path p = do
  assert (is_none p.qself)
  check_self_segments p.path.leading_colon p.path.segments

unfoldable mutual
  unfolding check_self_path

  pub check_for_unsupported_self : SynType → Outcome (Unit {0})
  check_for_unsupported_self (array elem len) = check_for_unsupported_self elem
  check_for_unsupported_self (bare_fn inputs output) = do
    check_selves inputs
    check_self_output output
  check_for_unsupported_self (group elem) = check_for_unsupported_self elem
  check_for_unsupported_self (paren elem) = check_for_unsupported_self elem
  check_for_unsupported_self (path p) = check_self_path p
  check_for_unsupported_self (ptr m elem) = check_for_unsupported_self elem
  check_for_unsupported_self (reference l m elem) = check_for_unsupported_self elem
  check_for_unsupported_self (slice elem) = check_for_unsupported_self elem
  check_for_unsupported_self (tuple elems) = check_selves elems
  check_for_unsupported_self (impl_trait bounds) = ok tt
  check_for_unsupported_self (trait_object d bounds) = ok tt
  check_for_unsupported_self (other text) = ok tt

  -- `for input in barefn.inputs.iter()` and `for elem in tuple.elems.iter()`
  pub check_selves : Types → Outcome (Unit {0})
  check_selves nil = ok tt
  check_selves (cons t ts) = do check_for_unsupported_self t; check_selves ts

  -- `if let ReturnType::Type(_, output_ty) = &barefn.output`
  pub check_self_output : ReturnType → Outcome (Unit {0})
  check_self_output default = ok tt
  check_self_output (returns t) = check_for_unsupported_self t

unfoldable pub replace_self : TypePath → SynType → Bool → List Segment → SynType
replace_self p into_ty false (seg ∷ []) = if is_self seg then into_ty else path p
replace_self p into_ty _ _ = path p

unfoldable pub self_type_path_into : TypePath → SynType → Outcome SynType
unfolding replace_self
self_type_path_into p into_ty = do
  assert (is_none p.qself)
  ok (replace_self p into_ty p.path.leading_colon p.path.segments)

module _ (parse : Quoted → Option SynType) where
  unfoldable pub self_to_byte_slice : SynType → Outcome SynType
  self_to_byte_slice (path p) = do
    into_ty ← unwrap (parse byte_slice)
    self_type_path_into p into_ty
  self_to_byte_slice ty = ok ty

  -- What the other arms leave is passed through.
  unfoldable pub pass_through_self : SynType → Outcome SynType
  pass_through_self ty = do check_for_unsupported_self ty; ok ty

  unfoldable pub type_to_bytes : SynType → Outcome SynType
  unfolding pass_through_self
  type_to_bytes (impl_trait bounds) = ok (trait_object true bounds)
  type_to_bytes (paren elem) = do elem ← type_to_bytes elem; ok (paren elem)
  type_to_bytes (path p) = do into_ty ← unwrap (parse boxed_bytes); self_type_path_into p into_ty
  type_to_bytes (ptr m elem) = do elem ← self_to_byte_slice elem; ok (ptr m elem)
  type_to_bytes (reference l m elem) = do elem ← self_to_byte_slice elem; ok (reference l m elem)
  type_to_bytes ty = pass_through_self ty
