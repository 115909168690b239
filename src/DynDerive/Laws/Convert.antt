-- ===== src/DynDerive/Laws/Convert.antt =====
-- The types that the conversions of dyn-derive/src/lib.rs make of types by value, by reference and
-- by pointer.
use buffer.Common.{
  Outcome, ok, panic, undefined, ◌>>=◌, Option, none, some, List, [], ◌∷◌, Bool, true, false,
  if◌then◌else◌, ◌≡◌, refl, sym, subst,
}
use Prim.Native.String.{String}
use text.Mathlib.Text.{◌==◌ as str_eq}
use buffer.DynDerive.Syntax.{
  PathArguments, absent, empty_brackets, given, Segment, TypePath, Bound, SynType, array, bare_fn,
  group, impl_trait, paren, path, ptr, reference, slice, trait_object, tuple, other, Quoted, named,
  box_of, any_trait, ParsesTypes,
}
use buffer.DynDerive.SelfType.{
  is_self, replace_self, self_type_path_into, self_to_byte_slice, type_to_bytes,
}
use buffer.DynDerive.Generics.{
  check_for_unsupported_generics, GenericsMap, get, process_generic_type_path, process_segments,
  trait_object_of, generic_ref_to_trait_object, process_generics,
}
use buffer.DynDerive.Signature.{convert_type}
use buffer.DynDerive.Laws.Passed.{IsPassed, convert_type-passed}
use buffer.DynDerive.Laws.Supported.{
  IsTarget, IsConvertible, by_value, by_reference, by_pointer, as_impl, in_parens, passed,
  replaced_path, replaced, target_for, type_for,
}

wrap_then :
    (m : Outcome SynType) (f g : SynType → Outcome SynType) (w : SynType → SynType) (t : SynType)
    → ((e : SynType) → g (w e) ≡ (f e >>= λ e'. ok (w e')))
    → (m >>= f) ≡ ok t
    → ((m >>= λ e. ok (w e)) >>= g) ≡ ok (w t)
wrap_then (ok e) f g w t step h = rw (step e, h)
wrap_then panic f g w t step h = cc
wrap_then undefined f g w t step h = cc

passed-type_for :
    (find : String → Option (List Bound)) (tokens : List Bound → String) (ty : SynType)
    → IsPassed ty
    → type_for find tokens ty ≡ ty
passed-type_for find tokens (array elem len) h = refl
passed-type_for find tokens (bare_fn inputs output) h = refl
passed-type_for find tokens (group elem) h = refl
passed-type_for find tokens (slice elem) h = refl
passed-type_for find tokens (tuple elems) h = refl
passed-type_for find tokens (trait_object d bounds) h = refl
passed-type_for find tokens (other text) h = refl
passed-type_for find tokens (impl_trait _) h = elim h [ ]
passed-type_for find tokens (paren _) h = elim h [ ]
passed-type_for find tokens (path _) h = elim h [ ]
passed-type_for find tokens (ptr _ _) h = elim h [ ]
passed-type_for find tokens (reference _ _ _) h = elim h [ ]

-- What the map of generic types holds, by name: bounds with a trait among them.
pub record Describes (generics : GenericsMap) (find : String → Option (List Bound)) : Type 0 where
  pub same : (n : String) → get n generics ≡ find n
  pub traits : (n : String) (bounds : List Bound) → find n ≡ some bounds → any_trait bounds ≡ true

module _ (parse : Quoted → Option SynType) (generics : GenericsMap)
    (find : String → Option (List Bound)) (known : Describes generics find) where
  -- Both conversions of a path, where the first makes `object` of bounds and `second` makes `bytes`
  -- of `Self`.
  module _ (owned : Bool) (second : SynType → Outcome SynType) (object : List Bound → SynType)
      (bytes : SynType)
      (makes_object : (p : TypePath) (bounds : List Bound)
        → any_trait bounds ≡ true
        → trait_object_of parse p (some bounds) owned ≡ ok (object bounds))
      (keeps_object : (bounds : List Bound) → second (object bounds) ≡ ok (object bounds))
      (second_path : (p : TypePath) → second (path p) ≡ self_type_path_into p bytes) where
    found_lem :
        (p : TypePath) (n : String) (found : Option (List Bound))
        → find n ≡ found
        → self_type_path_into p bytes ≡ ok (if str_eq "Self" n then bytes else path p)
        → (trait_object_of parse p (get n generics) owned >>= second)
          ≡ ok (replaced_path find object bytes p (some n))
    unfolding trait_object_of
    found_lem p n none f step = rw (known.same n, f, second_path p, step)
    found_lem p n (some bounds) f step =
        rw (known.same n, f, makes_object p bounds (known.traits n bounds f), keeps_object bounds)

    segment_lem :
        (n : String) (a : PathArguments)
        → let p : TypePath = record {
          qself = none;
          path = record {
            leading_colon = false;
            segments = record { ident = n; arguments = a } ∷ [];
          };
        } in
          (process_generic_type_path parse p generics owned >>= second)
          ≡ ok (replaced find object bytes p)
    unfolding process_generic_type_path process_segments replace_self is_self self_type_path_into
    segment_lem n absent = found_lem _ n _ refl refl
    segment_lem n empty_brackets = found_lem _ n _ refl refl
    segment_lem n (given _) = rw (second_path _)

    segments_lem :
        (colon : Bool) (segments : List Segment)
        → let p : TypePath = record {
          qself = none;
          path = record { leading_colon = colon; segments = segments };
        } in
          (process_generic_type_path parse p generics owned >>= second)
          ≡ ok (replaced find object bytes p)
    unfolding process_generic_type_path process_segments replace_self self_type_path_into
    segments_lem true segments = rw (second_path _)
    segments_lem false [] = rw (second_path _)
    segments_lem false (s ∷ []) = segment_lem s.ident s.arguments
    segments_lem false (_ ∷ _ ∷ _) = rw (second_path _)

    replaced_lem :
        (p : TypePath)
        → p.qself ≡ none
        → (process_generic_type_path parse p generics owned >>= second)
          ≡ ok (replaced find object bytes p)
    replaced_lem p q =
        subst
          (λ (o : Option String).
            let r : TypePath = record { qself = o; path = p.path } in
            (process_generic_type_path parse r generics owned >>= second)
            ≡ ok (replaced find object bytes r))
          (sym q) (segments_lem p.path.leading_colon p.path.segments)

  module _ (tokens : List Bound → String) (parses : ParsesTypes parse tokens) where
    owned_lem :
        (p : TypePath)
        → p.qself ≡ none
        → (process_generic_type_path parse p generics true >>= type_to_bytes parse)
          ≡ ok (type_for find tokens (path p))
    unfolding type_to_bytes trait_object_of self_type_path_into is_self
    owned_lem p q =
        replaced_lem true (type_to_bytes parse) (λ bounds. box_of (tokens bounds)) (box_of "[u8]")
          (λ p bounds any. rw (parses.parse-boxed_dyn bounds any))
          (λ bounds. rw parses.parse-boxed_bytes) (λ p. rw parses.parse-boxed_bytes) p q

    borrowed_lem :
        (t : SynType)
        → IsTarget t
        → (generic_ref_to_trait_object parse t generics >>= self_to_byte_slice parse)
          ≡ ok (target_for find t)
    unfolding generic_ref_to_trait_object self_to_byte_slice trait_object_of
    borrowed_lem (path p) q =
        replaced_lem false (self_to_byte_slice parse) (trait_object true) (slice (named "u8"))
          (λ p bounds any. rw (parses.parse-dyn bounds any)) (λ bounds. refl)
          (λ p. rw parses.parse-byte_slice) p q
    borrowed_lem (array _ _) q = refl
    borrowed_lem _ q = refl

    pub convert_type_lem :
        {ty : SynType}
        → IsConvertible ty
        → convert_type parse ty generics ≡ ok (type_for find tokens ty)
    unfolding convert_type process_generics type_to_bytes check_for_unsupported_generics
    convert_type_lem (by_value p q) = owned_lem p q
    convert_type_lem (by_reference t l m q) =
        wrap_then _ _ (type_to_bytes parse) (reference l m) _ (λ _. refl) (borrowed_lem t q)
    convert_type_lem (by_pointer t m q) =
        wrap_then _ _ (type_to_bytes parse) (ptr m) _ (λ _. refl) (borrowed_lem t q)
    convert_type_lem (as_impl bounds) = refl
    convert_type_lem (in_parens {t = s} c) =
        wrap_then (process_generics parse s generics) _ (type_to_bytes parse) paren _ (λ _. refl)
          (convert_type_lem c)
    convert_type_lem (passed t h a) =
        rw (passed-type_for find tokens t h) ((convert_type-passed parse t generics h).0 a)
