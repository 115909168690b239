-- ===== src/DynDerive/Syntax.antt =====
-- The syntax that dyn-derive/src/lib.rs takes apart and puts together: the trees of syn, where a
-- part that is only copied is its text.
use buffer.Common.{
  ◌≡◌, Outcome, ok, panic, Option, none, some, List, [], ◌∷◌, Bool, true, false, ◌||◌,
  if◌then◌else◌,
}
use Prim.Native.String.{String}
use text.Mathlib.Text.{◌==◌ as str_eq}

-- The arguments of a segment of a path: none at all, the brackets `<>` with nothing between them, or
-- others, as text.
pub data PathArguments : Type 0 where
  absent : PathArguments
  empty_brackets : PathArguments
  given : String → PathArguments

-- `is_empty()` of the arguments.
abbrev pub no_arguments : PathArguments → Bool
no_arguments absent = true
no_arguments empty_brackets = true
no_arguments (given _) = false

-- A segment of a path.
pub record Segment : Type 0 where
  pub ident : String
  pub arguments : PathArguments

pub record SynPath : Type 0 where
  pub leading_colon : Bool
  pub segments : List Segment

-- A path with the `<T as Trait>` before it, if there is one.
pub record TypePath : Type 0 where
  pub qself : Option String
  pub path : SynPath

-- A bound: a trait, with whether it has `for<..>` and whether it has a `?`, or a lifetime.
pub data Bound : Type 0 where
  trait : Bool → Bool → SynPath → Bound
  lifetime : String → Bound

-- `reference` has its lifetime and whether it is `mut`, `ptr` whether it is `mut`, `trait_object`
-- whether it has the word `dyn`. `other` is a type that no function here looks into.
mutual
  pub data SynType : Type 0 where
    array : SynType → String → SynType
    bare_fn : Types → ReturnType → SynType
    group : SynType → SynType
    impl_trait : List Bound → SynType
    paren : SynType → SynType
    path : TypePath → SynType
    ptr : Bool → SynType → SynType
    reference : Option String → Bool → SynType → SynType
    slice : SynType → SynType
    trait_object : Bool → List Bound → SynType
    tuple : Types → SynType
    other : String → SynType

  pub data Types : Type 0 where
    nil : Types
    cons : SynType → Types → Types

  pub data ReturnType : Type 0 where
    default : ReturnType
    returns : SynType → ReturnType

-- What is quoted in the source to be parsed as a type, with what is put in.
pub data Quoted : Type 0 where
  -- `Box<[u8]>`, `mut Box<[u8]>` and `[u8]`
  boxed_bytes : Quoted
  mut_boxed_bytes : Quoted
  byte_slice : Quoted
  -- `& #lifetime #mutability [u8]`
  ref_bytes : Option String → Bool → Quoted
  -- `Box<dyn #bounds>` and `dyn #bounds`
  boxed_dyn : List Bound → Quoted
  dyn : List Bound → Quoted
  -- `()`
  unit : Quoted

abbrev pub unwrap {ℓ} : {A : Type ℓ} → Option A → Outcome A
unwrap none = panic
unwrap (some a) = ok a

-- A path of one segment without arguments, as in `T`.
abbrev pub name : String → SynPath
name n = record { leading_colon = false; segments = record { ident = n; arguments = absent } ∷ [] }

-- The type `T`.
abbrev pub named : String → SynType
named n = path (record { qself = none; path = name n })

-- The type `Box<..>`.
abbrev pub box_of : String → SynType
box_of argument = path (record {
  qself = none;
  path = record {
    leading_colon = false;
    segments = record { ident = "Box"; arguments = given argument } ∷ [];
  };
})

abbrev pub is_trait : Bound → Bool
is_trait (trait _ _ _) = true
is_trait (lifetime _) = false

abbrev pub any_trait : List Bound → Bool
any_trait [] = false
any_trait (b ∷ bounds) = is_trait b || any_trait bounds

-- What is assumed of `syn::parse`: it reads each of the quoted texts by the grammar of Rust, in which
-- `mut Box<[u8]>` is no type, and trait objects have at least one trait. `tokens` is the text that
-- `quote!` makes of bounds.
pub record ParsesTypes (parse : Quoted → Option SynType) (tokens : List Bound → String)
    : Type 0 where
  pub parse-boxed_bytes : parse boxed_bytes ≡ some (box_of "[u8]")
  pub parse-mut_boxed_bytes : parse mut_boxed_bytes ≡ none
  pub parse-byte_slice : parse byte_slice ≡ some (slice (named "u8"))
  pub parse-ref_bytes :
      (l : Option String) (m : Bool)
      → parse (ref_bytes l m) ≡ some (reference l m (slice (named "u8")))
  pub parse-boxed_dyn :
      (bounds : List Bound)
      → any_trait bounds ≡ true
      → parse (boxed_dyn bounds) ≡ some (box_of (tokens bounds))
  pub parse-dyn :
      (bounds : List Bound)
      → any_trait bounds ≡ true
      → parse (dyn bounds) ≡ some (trait_object true bounds)
  pub parse-unit : parse unit ≡ some (tuple nil)

-- The name of a path that is one name.
abbrev pub plain_segment : List Segment → Option String
plain_segment [] = none
plain_segment (s ∷ []) = if no_arguments s.arguments then some s.ident else none
plain_segment (_ ∷ _ ∷ _) = none

abbrev pub plain : SynPath → Option String
plain p = elim p.leading_colon [ true ↦ none | false ↦ plain_segment p.segments ]

abbrev pub is_name : String → Option String → Bool
is_name n none = false
is_name n (some m) = str_eq m n
