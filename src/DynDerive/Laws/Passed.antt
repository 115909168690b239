-- ===== src/DynDerive/Laws/Passed.antt =====
-- The types that the conversions of dyn-derive/src/lib.rs leave as they are.
use buffer.Common.{Outcome, ok, panic, undefined, ◌>>=◌, ◌>>◌, Option, ◌≡◌, refl}
use buffer.DynDerive.Syntax.{
  SynType, array, bare_fn, group, impl_trait, paren, path, ptr, reference, slice, trait_object,
  tuple, other, Quoted,
}
use buffer.DynDerive.SelfType.{check_for_unsupported_self, type_to_bytes}
use buffer.DynDerive.Generics.{GenericsMap, check_for_unsupported_generics, process_generics}
use buffer.DynDerive.Signature.{convert_type}
use buffer.DynDerive.Laws.Paths.{checked_paths, All, IsOnlySelf}
use buffer.DynDerive.Laws.Checks.{
  check_for_unsupported_self_lem, check_for_unsupported_generics_lem,
}

-- The kinds of types that the two conversions do not look into.
abbrev pub IsPassed : SynType → Type 0
IsPassed (array _ _) = Unit
IsPassed (bare_fn _ _) = Unit
IsPassed (group _) = Unit
IsPassed (slice _) = Unit
IsPassed (trait_object _ _) = Unit
IsPassed (tuple _) = Unit
IsPassed (other _) = Unit
IsPassed _ = ⊥

-- Both checks, one after the other.
checked : SynType → GenericsMap → Outcome SynType
checked ty generics = do
  check_for_unsupported_generics ty generics
  check_for_unsupported_self ty
  ok ty

pass_then :
    (m n : Outcome (Unit {0})) (ty : SynType) (next : SynType → Outcome SynType)
    → next ty ≡ (n >> ok ty)
    → ((m >> ok ty) >>= next) ≡ (m >> (n >> ok ty))
pass_then (ok _) n ty next e = e
pass_then panic n ty next e = refl
pass_then undefined n ty next e = refl

module _ (parse : Quoted → Option SynType) where
  convert_type-checked :
      (ty : SynType) (generics : GenericsMap)
      → IsPassed ty
      → convert_type parse ty generics ≡ checked ty generics
  unfolding convert_type checked process_generics type_to_bytes
  convert_type-checked (array elem len) generics h = pass_then _ _ _ (type_to_bytes parse) refl
  convert_type-checked (bare_fn inputs output) generics h =
      pass_then _ _ _ (type_to_bytes parse) refl
  convert_type-checked (group elem) generics h = pass_then _ _ _ (type_to_bytes parse) refl
  convert_type-checked (slice elem) generics h = pass_then _ _ _ (type_to_bytes parse) refl
  convert_type-checked (tuple elems) generics h = pass_then _ _ _ (type_to_bytes parse) refl
  convert_type-checked (trait_object d bounds) generics h =
      pass_then _ _ _ (type_to_bytes parse) refl
  convert_type-checked (other text) generics h = pass_then _ _ _ (type_to_bytes parse) refl
  convert_type-checked (impl_trait _) generics h = elim h [ ]
  convert_type-checked (paren _) generics h = elim h [ ]
  convert_type-checked (path _) generics h = elim h [ ]
  convert_type-checked (ptr _ _) generics h = elim h [ ]
  convert_type-checked (reference _ _ _) generics h = elim h [ ]

  -- The conversions of a type that is an array, a slice, a tuple, a function pointer, a group, a
  -- trait object, or one that they do not know, give the type back unchanged if each path that
  -- the checks reach in it is unqualified and is `Self` or not of one segment, and panic
  -- otherwise. The paths that are reached are those that are the type of an element, of what is
  -- referred or pointed to, or of an argument or result of a function pointer, at any depth of
  -- these, of groups and of parentheses; what stands in the arguments of a path, in the bounds
  -- of a trait object or an `impl`, or in a type that they do not know, is not reached.
  pub convert_type-passed :
      (ty : SynType) (generics : GenericsMap)
      → IsPassed ty
      → (All IsOnlySelf (checked_paths ty) → convert_type parse ty generics ≡ ok ty)
        × (¬ All IsOnlySelf (checked_paths ty) → convert_type parse ty generics ≡ panic)
  unfolding checked
  convert_type-passed ty generics h =
      rw (convert_type-checked ty generics h, check_for_unsupported_generics_lem ty generics)
        ((
          λ a. rw ((check_for_unsupported_self_lem ty).0.1 a),
          λ a. rw ((check_for_unsupported_self_lem ty).1.1 a),
        ))
