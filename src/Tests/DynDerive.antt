-- ===== src/Tests/DynDerive.antt =====
-- The theorems about the macros of dyn-derive/src/lib.rs at concrete syntax, and runs of them.
use buffer.Common.{
  ap, ◌||◌, ok, panic, Option, none, some, List, [], ◌∷◌, true, false, ◌≡◌, refl, if◌then◌else◌,
}
use buffer.Common.{ℕ}
use buffer.Tests.Inputs.{byte}
use buffer.Tests.Worlds.{logged}
use buffer.DynDerive.KnownTraits.{KnownFn}
use buffer.DynDerive.Functions.{generated_fn}
use buffer.DynDerive.Laws.Functions.{trait_fn, generated_fn-trait_fn}
use buffer.DynDerive.KnownTraits.{Table, vtable_of, recognize, get_key_value, path_eq}
use buffer.DynDerive.Laws.Supertraits.{Selects, vtable_of-Selects}
use Prim.Native.String.{String}
use buffer.DynDerive.Signature.{
  add_params, add_param, add_where, convert_inputs, convert_input, convert_output,
}
use buffer.DynDerive.Generics.{
  process_generics, process_generic_type_path, process_segments, generic_ref_to_trait_object,
}
use buffer.DynDerive.SelfType.{is_self, type_to_bytes, self_to_byte_slice, self_type_path_into}
use buffer.DynDerive.Syntax.{
  empty_brackets, cons, given, path, ReturnType, is_name, Bound, trait, SynType, array, reference,
  slice, trait_object, tuple, nil, returns, Quoted, boxed_bytes, mut_boxed_bytes, byte_slice,
  ref_bytes, boxed_dyn, dyn, unit, name, named, box_of, any_trait, ParsesTypes,
}
use buffer.DynDerive.Config.{default, Lit, DynAttrib, apply_attribs}
use buffer.DynDerive.Signature.{
  TypeParam, type_param, on_type, FnArg, receiver, typed, Signature, convert_type, dyn_fn_sig,
}
use buffer.DynDerive.Items.{ItemTrait, DynItems, construct_dyn_items}
use buffer.DynDerive.Laws.Paths.{checked_paths, All, IsOnlySelf}
use buffer.DynDerive.Laws.Passed.{convert_type-passed}
use buffer.DynDerive.Laws.Supported.{by_value, by_reference}
use buffer.DynDerive.Laws.Supported.{IsSupported}
use buffer.DynDerive.Laws.Signatures.{dyn_fn_sig_supported}
use buffer.DynDerive.Laws.Where.{dyn_fn_sig-where}
use buffer.DynDerive.Laws.Attributes.{
  has_flag, parsed, last_or, apply_attribs_lem, construct_dyn_items-parsed,
}
use buffer.DynDerive.Laws.Generated.{IsConsistent, construct_dyn_items-IsConsistent}

abbrev self_ty : SynType
self_ty = named "Self"

abbrev debug : Bound
debug = trait false false (name "Debug")

abbrev hasher : Bound
hasher = trait false false (name "Hasher")

-- A parser for what is quoted.
abbrev parse : Quoted → Option SynType
parse boxed_bytes = some (box_of "[u8]")
parse mut_boxed_bytes = none
parse byte_slice = some (slice (named "u8"))
parse (ref_bytes l m) = some (reference l m (slice (named "u8")))
parse (boxed_dyn bounds) = if any_trait bounds then some (box_of "dyn") else none
parse (dyn bounds) = if any_trait bounds then some (trait_object true bounds) else none
parse unit = some (tuple nil)

parse-ParsesTypes : ParsesTypes parse (λ _. "dyn")
parse-ParsesTypes = record {
  parse-boxed_bytes = refl;
  parse-mut_boxed_bytes = refl;
  parse-byte_slice = refl;
  parse-ref_bytes = λ l m. refl;
  parse-boxed_dyn = λ bounds h. rw h refl;
  parse-dyn = λ bounds h. rw h refl;
  parse-unit = refl;
}

abbrev arg : String → SynType → FnArg
arg pat ty = typed (record { attrs = []; pat = pat; ty = ty })

abbrev generic : TypeParam
generic = record {
  attrs = [];
  ident = "T";
  colon_token = true;
  bounds = debug ∷ [];
  eq_token = false;
  default_type = none;
}

-- `Option<Self>`
abbrev option_self : SynType
option_self = path (record {
  qself = none;
  path = record {
    leading_colon = false;
    segments = record { ident = "Option"; arguments = given "Self" } ∷ [];
  };
})

-- `fn merge<T: Debug>(&self, other: Self, log: &T, old: Option<Self>) -> Self`
abbrev merge : Signature
merge = record {
  constness = false;
  asyncness = false;
  unsafety = false;
  abi = none;
  ident = "merge";
  params = type_param generic ∷ [];
  where_clause = none;
  inputs =
      receiver (record { attrs = []; reference_to = some none; mutability = false })
      ∷ arg "other" self_ty
      ∷ arg "log" (reference none false (named "T"))
      ∷ arg "old" option_self
      ∷ [];
  variadic = none;
  output = returns self_ty;
}

merge-IsSupported : IsSupported merge
merge-IsSupported = record {
  not_const = refl;
  not_async = refl;
  no_abi = refl;
  not_variadic = refl;
  type_params = (
    record { no_attrs = refl; has_colon = refl; no_eq = refl; no_default = refl; has_trait = refl },
    tt,
  );
  no_where = refl;
  supported_args = (cc, (by_value _ refl, (by_reference _ none false refl, (by_value _ refl, tt))));
  supported_output = by_value _ refl;
}

-- `unsafe fn merge_bytes(_self_: &[u8], other: Box<[u8]>, log: &dyn Debug, old: Option<Self>)
-- -> Box<[u8]>`: the last argument keeps its `Self`.
dyn_fn_sig_supported_example :
    dyn_fn_sig parse merge
    ≡ ok (record merge {
      unsafety = true;
      ident = "merge_bytes";
      params = [];
      inputs =
          arg "_self_" (reference none false (slice (named "u8")))
          ∷ arg "other" (box_of "[u8]")
          ∷ arg "log" (reference none false (trait_object true (debug ∷ [])))
          ∷ arg "old" option_self
          ∷ [];
      output = returns (box_of "[u8]");
    })
dyn_fn_sig_supported_example =
    dyn_fn_sig_supported parse (λ _. "dyn") parse-ParsesTypes merge merge-IsSupported

-- `fn both(pair: [Self; 2])`: the array stays.
abbrev pair_ty : SynType
pair_ty = array self_ty "2"

convert_type-passed_example :
    (All IsOnlySelf (checked_paths pair_ty) → convert_type parse pair_ty [] ≡ ok pair_ty)
    × (¬ All IsOnlySelf (checked_paths pair_ty) → convert_type parse pair_ty [] ≡ panic)
convert_type-passed_example = convert_type-passed parse pair_ty [] tt

self_array : convert_type parse pair_ty [] ≡ ok pair_ty
unfolding checked_paths
self_array = (convert_type-passed parse pair_ty [] tt).0 ((refl, λ _. refl), tt)

-- `dyn Debug` stays, as its bounds are not looked into, and a tuple of one `Option<Self>` does not pass.
debug_object :
    convert_type parse (trait_object true (debug ∷ [])) [] ≡ ok (trait_object true (debug ∷ []))
unfolding checked_paths
debug_object = (convert_type-passed parse (trait_object true (debug ∷ [])) [] tt).0 tt

option_tuple : convert_type parse (tuple (cons option_self nil)) [] ≡ panic
unfolding checked_paths
option_tuple =
    (convert_type-passed parse (tuple (cons option_self nil)) [] tt).1 (λ h. cc (h.0.1 refl))

byte_array : convert_type parse (array (named "u8") "2") [] ≡ panic
unfolding checked_paths
byte_array =
    (convert_type-passed parse (array (named "u8") "2") [] tt).1
      (λ h. cc (ap (is_name "Self") (h.0.1 refl)))

-- `fn merge<T>(..) where T: Debug`
abbrev merge_where : Signature
merge_where = record merge { where_clause = some (on_type false (named "T") (debug ∷ []) ∷ []) }

dyn_fn_sig-where_example : dyn_fn_sig parse merge_where ≡ panic
dyn_fn_sig-where_example =
    dyn_fn_sig-where parse merge_where [] [] false (record { qself = none; path = name "T" })
      (debug ∷ []) refl tt

-- `suffix = "Table", build_vtable_only` and `suffix = "VTable", suffix = "Table"`
abbrev table_only : List DynAttrib
table_only =
    record { ident = "suffix"; eq = true; value = some (Lit.str "Table") }
    ∷ record { ident = "build_vtable_only"; eq = false; value = none }
    ∷ []

abbrev table_last : List DynAttrib
table_last =
    record { ident = "suffix"; eq = true; value = some (Lit.str "VTable") }
    ∷ record { ident = "suffix"; eq = true; value = some (Lit.str "Table") }
    ∷ []

apply_attribs_lem_example : apply_attribs default table_only ≡ record {
  dyn_crate_name = last_or "dyn_crate_name" "dyn" table_only;
  suffix = last_or "suffix" "VTable" table_only;
  build_vtable_only = false || has_flag "build_vtable_only" table_only;
}
apply_attribs_lem_example = apply_attribs_lem table_only default

-- `pub trait Value: Clone + PartialEq + Send`
abbrev value_trait : ItemTrait
value_trait = record {
  vis = "pub";
  ident = "Value";
  params = [];
  where_clause = none;
  supertraits =
      trait false false (name "Clone")
      ∷ trait false false (name "PartialEq")
      ∷ trait false false (name "Send")
      ∷ [];
  rest = "{}";
}

construct_dyn_items-parsed_example :
    construct_dyn_items (λ _. true) value_trait (parsed table_only)
    ≡ construct_dyn_items (λ _. true) value_trait (parsed table_last)
construct_dyn_items-parsed_example =
    construct_dyn_items-parsed (λ _. true) value_trait table_only table_last refl refl

construct_dyn_items-IsConsistent_example :
    (items : DynItems) × (construct_dyn_items (λ _. true) value_trait default ≡ ok items)
    × IsConsistent items
construct_dyn_items-IsConsistent_example =
    construct_dyn_items-IsConsistent (λ _. true) value_trait default
      (refl, (refl, (refl, (refl, (refl, tt))))) refl refl refl refl (cc, (cc, (cc, tt)))

generated_fn-trait_fn_example :
    generated_fn byte logged (λ (x : ℕ) (f : ℕ). (f, x)) KnownFn.clone_from_fn
    ≡ trait_fn byte logged (λ (x : ℕ) (f : ℕ). (f, x)) KnownFn.clone_from_fn
generated_fn-trait_fn_example =
    generated_fn-trait_fn byte logged (λ (x : ℕ) (f : ℕ). (f, x)) KnownFn.clone_from_fn

vtable_of-Selects_example :
    (tables : List Table) × (vtable_of value_trait.supertraits ≡ ok tables)
    × Selects value_trait.supertraits tables
vtable_of-Selects_example = vtable_of-Selects value_trait.supertraits (cc, (cc, (cc, tt)))

-- `fn hash<H: Hasher>(&self, state: &mut H)` of src/traits.rs
abbrev hash_sig : Signature
hash_sig = record merge {
  ident = "hash";
  params = type_param (record generic { ident = "H"; bounds = hasher ∷ [] }) ∷ [];
  inputs =
      receiver (record { attrs = []; reference_to = some none; mutability = false })
      ∷ arg "state" (reference none true (named "H"))
      ∷ [];
  output = ReturnType.default;
}

-- `unsafe fn hash_bytes(_self_: &[u8], state: &mut dyn Hasher) -> ()`
hash_bytes :
    dyn_fn_sig parse hash_sig
    ≡ ok (record hash_sig {
      unsafety = true;
      ident = "hash_bytes";
      params = [];
      inputs =
          arg "_self_" (reference none false (slice (named "u8")))
          ∷ arg "state" (reference none true (trait_object true (hasher ∷ [])))
          ∷ [];
      output = returns (tuple nil);
    })
unfolding dyn_fn_sig add_params add_param add_where convert_inputs convert_input convert_output
    process_generics process_generic_type_path process_segments generic_ref_to_trait_object
    type_to_bytes self_to_byte_slice self_type_path_into is_self
hash_bytes = refl

-- `Clone<>` has the identifier of a known trait and no arguments, and is not its path.
empty_clone :
    recognize (
      trait false false (record {
        leading_colon = false;
        segments = record { ident = "Clone"; arguments = empty_brackets } ∷ [];
      }))
    ≡ ok none
unfolding recognize get_key_value path_eq
empty_clone = refl
