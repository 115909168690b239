-- ===== src/DynDerive/Laws/Supported.antt =====
-- The signatures that `dyn_fn_sig` of dyn-derive/src/lib.rs accepts, and the types that take the place
-- of those in them.
use buffer.Common.{Option, none, some, List, [], ◌∷◌, Bool, true, false, map, if◌then◌else◌, ◌≡◌}
use Prim.Native.String.{String, ◌++◌}
use text.Mathlib.Text.{◌==◌ as str_eq}
use buffer.DynDerive.Syntax.{
  Bound, TypePath, SynType, impl_trait, paren, path, ptr, reference, slice, trait_object, tuple,
  nil, ReturnType, default, returns, any_trait, plain, named, box_of,
}
use buffer.DynDerive.Signature.{
  TypeParam, GenericParam, type_param, lifetime_param, const_param, FnArg, receiver, typed,
  Signature,
}
use buffer.DynDerive.Laws.Paths.{All, checked_paths, IsOnlySelf}
use buffer.DynDerive.Laws.Passed.{IsPassed}

-- What stands behind a reference or a pointer: no path with a `<T as Trait>`.
abbrev pub IsTarget : SynType → Type 0
IsTarget (path p) = p.qself ≡ none
IsTarget _ = Unit

-- The types that are converted, and those that pass the checks.
pub data IsConvertible : SynType → Type 0 where
  by_value : (p : TypePath) → p.qself ≡ none → IsConvertible (path p)
  by_reference :
      (t : SynType) (l : Option String) (m : Bool) → IsTarget t → IsConvertible (reference l m t)
  by_pointer : (t : SynType) (m : Bool) → IsTarget t → IsConvertible (ptr m t)
  as_impl : (bounds : List Bound) → IsConvertible (impl_trait bounds)
  in_parens : {t : SynType} → IsConvertible t → IsConvertible (paren t)
  passed : (t : SynType) → IsPassed t → All IsOnlySelf (checked_paths t) → IsConvertible t

-- `T: A + 'a`, with no default and a trait among the bounds.
pub record IsSupportedParam (t : TypeParam) : Type 0 where
  pub no_attrs : t.attrs ≡ []
  pub has_colon : t.colon_token ≡ true
  pub no_eq : t.eq_token ≡ false
  pub no_default : t.default_type ≡ none
  pub has_trait : any_trait t.bounds ≡ true

abbrev pub IsTypeParam : GenericParam → Type 0
IsTypeParam (type_param t) = IsSupportedParam t
IsTypeParam (lifetime_param _) = ⊥
IsTypeParam (const_param _) = ⊥

-- `self`, `&self` or `&mut self`, or an argument of a type as above.
abbrev pub IsSupportedArg : FnArg → Type 0
IsSupportedArg (receiver r) = (r.reference_to ≡ none) → (r.mutability ≡ false)
IsSupportedArg (typed p) = IsConvertible p.ty

abbrev pub IsSupportedOutput : ReturnType → Type 0
IsSupportedOutput default = Unit
IsSupportedOutput (returns ty) = IsConvertible ty

pub record IsSupported (sig : Signature) : Type 0 where
  pub not_const : sig.constness ≡ false
  pub not_async : sig.asyncness ≡ false
  pub no_abi : sig.abi ≡ none
  pub not_variadic : sig.variadic ≡ none
  pub type_params : All IsTypeParam sig.params
  pub no_where : sig.where_clause ≡ none
  pub supported_args : All IsSupportedArg sig.inputs
  pub supported_output : IsSupportedOutput sig.output

abbrev pub or_else {ℓ} : {A : Type ℓ} → Option A → Option A → Option A
or_else none o = o
or_else (some a) o = some a

-- The bounds of the last parameter of that name.
abbrev pub bounds_of : List GenericParam → String → Option (List Bound)
bounds_of [] n = none
bounds_of (type_param t ∷ params) n =
    or_else (bounds_of params n) (if str_eq t.ident n then some t.bounds else none)
bounds_of (lifetime_param _ ∷ params) n = bounds_of params n
bounds_of (const_param _ ∷ params) n = bounds_of params n

-- What takes the place of a path that is the name `n`, by what is found of `n` among the parameters:
-- an object of the bounds, or bytes for `Self`, or the path as it is.
abbrev pub replaced_name :
    (List Bound → SynType) → SynType → TypePath → String → Option (List Bound) → SynType
replaced_name object bytes p n (some bounds) = object bounds
replaced_name object bytes p n none = if str_eq "Self" n then bytes else path p

-- `Box<[u8]>`, `&[u8]` or `&mut [u8]` for `self`.
abbrev pub self_for : Option (Option String) → Bool → SynType
self_for none mutability = box_of "[u8]"
self_for (some l) mutability = reference l mutability (slice (named "u8"))

-- `find` gives the bounds of the type parameters by name.
module _ (find : String → Option (List Bound)) where
  -- Every path that is no name stays as it is.
  abbrev pub replaced_path : (List Bound → SynType) → SynType → TypePath → Option String → SynType
  replaced_path object bytes p none = path p
  replaced_path object bytes p (some n) = replaced_name object bytes p n (find n)

  abbrev pub replaced : (List Bound → SynType) → SynType → TypePath → SynType
  replaced object bytes p = replaced_path object bytes p (plain p.path)

  -- `dyn A` and `[u8]` behind references and pointers.
  abbrev pub target_for : SynType → SynType
  target_for (path p) = replaced (trait_object true) (slice (named "u8")) p
  target_for t = t

  module _ (tokens : List Bound → String) where
    -- `Box<dyn A>` and `Box<[u8]>` by value.
    abbrev pub type_for : SynType → SynType
    type_for (path p) = replaced (λ bounds. box_of (tokens bounds)) (box_of "[u8]") p
    type_for (reference l m t) = reference l m (target_for t)
    type_for (ptr m t) = ptr m (target_for t)
    type_for (impl_trait bounds) = trait_object true bounds
    type_for (paren t) = paren (type_for t)
    type_for t = t

    abbrev pub arg_for : FnArg → FnArg
    arg_for (receiver r) =
        typed
          (record { attrs = r.attrs; pat = "_self_"; ty = self_for r.reference_to r.mutability })
    arg_for (typed p) = typed (record p { ty = type_for p.ty })

    abbrev pub output_for : ReturnType → SynType
    output_for default = tuple nil
    output_for (returns t) = type_for t

-- The signature over bytes of a signature. `tokens` is the text of bounds, with the word `dyn`.
abbrev pub bytes_sig : (List Bound → String) → Signature → Signature
bytes_sig tokens sig = record sig {
  unsafety = true;
  ident = sig.ident ++ "_bytes";
  params = [];
  where_clause = none;
  inputs = map (arg_for (bounds_of sig.params) tokens) sig.inputs;
  output = returns (output_for (bounds_of sig.params) tokens sig.output);
}
