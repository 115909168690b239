-- ===== src/DynDerive/Laws/Signatures.antt =====
-- The signatures that `dyn_fn_sig` of dyn-derive/src/lib.rs makes.
use buffer.Common.{ok, Option, none, some, List, [], ◌∷◌, map, Bool, true, false, ◌≡◌, refl}
use Prim.Native.String.{String}
use buffer.DynDerive.Syntax.{Bound, SynType, ReturnType, default, returns, Quoted, ParsesTypes}
use buffer.DynDerive.Generics.{GenericsMap}
use buffer.DynDerive.Signature.{
  FnArg, receiver, typed, Signature, add_where, receiver_type, convert_input, convert_inputs,
  convert_output, dyn_fn_sig,
}
use buffer.DynDerive.Laws.Paths.{All}
use buffer.DynDerive.Laws.Convert.{Describes, convert_type_lem}
use buffer.DynDerive.Laws.Supported.{
  IsSupportedArg, IsSupportedOutput, IsSupported, self_for, arg_for, output_for, bytes_sig,
  bounds_of,
}
use buffer.DynDerive.Laws.Params.{add_params-Describes}

module _ (parse : Quoted → Option SynType) (tokens : List Bound → String)
    (parses : ParsesTypes parse tokens) where
  module _ (generics : GenericsMap) (find : String → Option (List Bound))
      (known : Describes generics find) where
    receiver_type_lem :
        (reference_to : Option (Option String)) (mutability : Bool)
        → (reference_to ≡ none → mutability ≡ false)
        → receiver_type parse reference_to mutability ≡ ok (self_for reference_to mutability)
    unfolding receiver_type
    receiver_type_lem (some l) m s = rw (parses.parse-ref_bytes l m)
    receiver_type_lem none true s = cc (s refl)
    receiver_type_lem none false s = rw parses.parse-boxed_bytes

    convert_input_lem :
        (arg : FnArg)
        → IsSupportedArg arg
        → convert_input parse arg generics ≡ ok (arg_for find tokens arg)
    unfolding convert_input
    convert_input_lem (receiver r) s = rw (receiver_type_lem r.reference_to r.mutability s)
    convert_input_lem (typed p) s = rw (convert_type_lem parse generics find known tokens parses s)

    convert_inputs_lem :
        (args : List FnArg)
        → All IsSupportedArg args
        → convert_inputs parse args generics ≡ ok (map (arg_for find tokens) args)
    unfolding convert_inputs
    convert_inputs_lem [] s = refl
    convert_inputs_lem (arg ∷ args) (s, ss) =
        rw (convert_input_lem arg s, convert_inputs_lem args ss)

    convert_output_lem :
        (r : ReturnType)
        → IsSupportedOutput r
        → convert_output parse r generics ≡ ok (output_for find tokens r)
    unfolding convert_output
    convert_output_lem default s = rw parses.parse-unit
    convert_output_lem (returns ty) s = convert_type_lem parse generics find known tokens parses s

  -- For a signature that is not `const`, `async`, `extern` or variadic, has no `where` clause,
  -- only type parameters with a trait among their bounds, no default and no attributes, and
  -- takes `self`, `&self` or `&mut self` and otherwise types, as is the result, that are paths,
  -- references, pointers, an `impl`, one of these in parentheses, or of another kind and passed
  -- by both checks, with no `<T as Trait>` before a path that is the type or that a reference or
  -- pointer is to, `dyn_fn_sig` returns the signature over bytes. This is the same but for
  -- `unsafe`, `_bytes` behind the name, no generics, `_self_` of type `Box<[u8]>`, `&[u8]` or
  -- `&mut [u8]` for `self`, a result `()` if there is none, and these types. By value, the name
  -- of a parameter becomes a `Box` of the `dyn` of its bounds, and `Self` becomes `Box<[u8]>`;
  -- directly behind a reference or a pointer they become the `dyn` and `[u8]`; an `impl` becomes
  -- a `dyn`; parentheses stay around what they hold. Everything else stays as it is, also a path
  -- that has `Self` or a parameter among its arguments, as `Option<Self>`. What is assumed is
  -- that `syn::parse` reads the quoted types by the grammar of Rust.
  pub dyn_fn_sig_supported :
      (sig : Signature) → IsSupported sig → dyn_fn_sig parse sig ≡ ok (bytes_sig tokens sig)
  unfolding dyn_fn_sig add_where
  dyn_fn_sig_supported sig s =
      let (generics, e, known) = add_params-Describes sig.params s.type_params in
      let f =
        convert_inputs_lem generics (bounds_of sig.params) known sig.inputs s.supported_args in
      let g =
        convert_output_lem generics (bounds_of sig.params) known sig.output s.supported_output in
      rw (s.not_const, s.not_async, s.no_abi, s.not_variadic, s.no_where, e, f, g)
