-- ===== src/DynDerive/Signature.antt =====
-- `dyn_fn_sig` and the macro `dyn_trait_method` of dyn-derive/src/lib.rs: the signature over bytes that
-- a method of a trait gets. `parse` is `syn::parse`.
use Prim.Native.String.{String, ◌++◌}
use buffer.DynDerive.Syntax.{
  no_arguments, Bound, SynType, path, ReturnType, default, returns, Quoted, boxed_bytes,
  mut_boxed_bytes, ref_bytes, unit, unwrap,
}
use buffer.Common.{
  ◌>>=◌, ◌>>◌, Outcome, ok, panic, assert, Option, none, some, List, [], ◌∷◌, Bool, true, false,
  not, ◌&&◌, ◌==◌, length, get_elem?,
}
use buffer.DynDerive.SelfType.{is_none, type_to_bytes}
use buffer.DynDerive.Generics.{GenericsMap, insert, process_generics}

pub record TypeParam : Type 0 where
  pub attrs : List String
  pub ident : String
  pub colon_token : Bool
  pub bounds : List Bound
  pub eq_token : Bool
  pub default_type : Option SynType

pub data GenericParam : Type 0 where
  type_param : TypeParam → GenericParam
  lifetime_param : String → GenericParam
  const_param : String → GenericParam

-- `on_type` says whether the predicate has `for<..>`.
pub data WherePredicate : Type 0 where
  on_type : Bool → SynType → List Bound → WherePredicate
  on_lifetime : String → WherePredicate
  on_eq : String → WherePredicate

pub record Receiver : Type 0 where
  pub attrs : List String
  -- `some` with the lifetime for `&self`
  pub reference_to : Option (Option String)
  pub mutability : Bool

pub record PatType : Type 0 where
  pub attrs : List String
  pub pat : String
  pub ty : SynType

pub data FnArg : Type 0 where
  receiver : Receiver → FnArg
  typed : PatType → FnArg

pub record Signature : Type 0 where
  pub constness : Bool
  pub asyncness : Bool
  pub unsafety : Bool
  pub abi : Option String
  pub ident : String
  pub params : List GenericParam
  pub where_clause : Option (List WherePredicate)
  pub inputs : List FnArg
  pub variadic : Option String
  pub output : ReturnType

-- `is_empty()` of the attributes.
abbrev pub is_empty {ℓ} : {A : Type ℓ} → List A → Bool
is_empty [] = true
is_empty (_ ∷ _) = false

unfoldable pub add_param : GenericParam → GenericsMap → Outcome GenericsMap
add_param (type_param t) generics = do
  assert (is_empty t.attrs)
  assert t.colon_token
  assert (not t.eq_token && is_none t.default_type)
  ok (insert t.ident t.bounds generics)
add_param (lifetime_param _) generics = panic
add_param (const_param _) generics = panic

-- `for gen in sig.generics.params.iter()`
unfoldable pub add_params : List GenericParam → GenericsMap → Outcome GenericsMap
add_params [] generics = ok generics
add_params (gen ∷ params) generics = do
  generics ← add_param gen generics
  add_params params generics

-- `if let Type::Path(ty_path) = ty.bounded_ty.clone()`
unfoldable pub add_bounded : SynType → List Bound → GenericsMap → Outcome GenericsMap
add_bounded (path p) bounds generics = do
  assert (is_none p.qself)
  assert (not p.path.leading_colon)
  assert (not (length p.path.segments == 1))
  seg ← unwrap (get_elem? p.path.segments 0)
  assert (not (no_arguments seg.arguments))
  ok (insert seg.ident bounds generics)
add_bounded _ bounds generics = ok generics

unfoldable pub add_predicate : WherePredicate → GenericsMap → Outcome GenericsMap
unfolding add_bounded
add_predicate (on_type lifetimes bounded_ty bounds) generics = do
  assert (not lifetimes)
  add_bounded bounded_ty bounds generics
add_predicate (on_lifetime _) generics = panic
add_predicate (on_eq _) generics = ok generics

-- `for pred in where_clause.predicates.iter()`
unfoldable pub add_predicates : List WherePredicate → GenericsMap → Outcome GenericsMap
add_predicates [] generics = ok generics
add_predicates (pred ∷ predicates) generics = do
  generics ← add_predicate pred generics
  add_predicates predicates generics

unfoldable pub add_where : Option (List WherePredicate) → GenericsMap → Outcome GenericsMap
add_where none generics = ok generics
add_where (some predicates) generics = add_predicates predicates generics

module _ (parse : Quoted → Option SynType) where
  -- The type of `_self_`.
  unfoldable pub receiver_type : Option (Option String) → Bool → Outcome SynType
  receiver_type (some lifetime) mutability = unwrap (parse (ref_bytes lifetime mutability))
  receiver_type none true = unwrap (parse mut_boxed_bytes)
  receiver_type none false = unwrap (parse boxed_bytes)

  -- `type_to_bytes(process_generics(ty, &generics))`
  unfoldable pub convert_type : SynType → GenericsMap → Outcome SynType
  convert_type ty generics = do ty ← process_generics parse ty generics; type_to_bytes parse ty

  unfoldable pub convert_input : FnArg → GenericsMap → Outcome FnArg
  unfolding receiver_type convert_type
  convert_input (receiver r) generics = do
    ty ← receiver_type r.reference_to r.mutability
    ok (typed (record { attrs = r.attrs; pat = "_self_"; ty = ty }))
  convert_input (typed p) generics = do
    ty ← convert_type p.ty generics
    ok (typed (record p { ty = ty }))

  -- `sig.inputs.iter().map(..).collect()`
  unfoldable pub convert_inputs : List FnArg → GenericsMap → Outcome (List FnArg)
  convert_inputs [] generics = ok []
  convert_inputs (arg ∷ inputs) generics = do
    arg ← convert_input arg generics
    inputs ← convert_inputs inputs generics
    ok (arg ∷ inputs)

  unfoldable pub convert_output : ReturnType → GenericsMap → Outcome SynType
  unfolding convert_type
  convert_output (returns ty) generics = convert_type ty generics
  convert_output default generics = unwrap (parse unit)

  unfoldable pub dyn_fn_sig : Signature → Outcome Signature
  unfolding convert_output
  dyn_fn_sig sig = do
    assert (not sig.constness)
    assert (not sig.asyncness)
    assert (is_none sig.abi)
    assert (is_none sig.variadic)
    generics ← add_params sig.params []
    generics ← add_where sig.where_clause generics
    dyn_inputs ← convert_inputs sig.inputs generics
    dyn_output ← convert_output sig.output generics
    ok (record sig {
      unsafety = true;
      ident = sig.ident ++ "_bytes";
      params = [];
      where_clause = none;
      inputs = dyn_inputs;
      output = returns dyn_output;
    })

-- A method of a trait: its attributes, its signature, and its body, if there is one.
pub record TraitItemMethod : Type 0 where
  pub attrs : List String
  pub sig : Signature
  pub body : Option String

-- `parse_method` is `syn::parse` of the item, which the macro expects to succeed.
unfoldable pub dyn_trait_method :
    {TokenStream : Type 0}
    → (TokenStream → Option TraitItemMethod)
    → (Quoted → Option SynType)
    → TokenStream
    → Outcome TraitItemMethod
dyn_trait_method parse_method parse item = do
  trait_method ← unwrap (parse_method item)
  sig ← dyn_fn_sig parse trait_method.sig
  ok (record trait_method { sig = sig })
