-- ===== src/DynDerive/KnownTraits.antt =====
-- The traits that dyn-derive/src/lib.rs knows, with the functions that it generates for them, and the
-- search for them among the supertraits of a trait.
use buffer.Common.{
  Outcome, ok, ◌>>=◌, Option, none, some, List, [], ◌∷◌, Bool, true, false, not, if◌then◌else◌,
  ◌&&◌, ◌||◌, get_elem?,
}
use Prim.Native.String.{String}
use text.Mathlib.Text.{◌==◌ as str_eq}
use buffer.DynDerive.Syntax.{
  PathArguments, absent, empty_brackets, given, no_arguments, Segment, SynPath, Bound, trait,
  lifetime, unwrap, name,
}

-- The functions that the macro can generate, each at any type `T`.
pub data KnownFn : Type 0 where
  clone_fn : KnownFn
  clone_from_fn : KnownFn
  clone_into_raw_fn : KnownFn
  eq_fn : KnownFn
  hash_fn : KnownFn
  fmt_fn : KnownFn

-- The identifier of a function, and the type of pointers to it.
unfoldable pub fn_name : KnownFn → String
fn_name clone_fn = "clone_fn"
fn_name clone_from_fn = "clone_from_fn"
fn_name clone_into_raw_fn = "clone_into_raw_fn"
fn_name eq_fn = "eq_fn"
fn_name hash_fn = "hash_fn"
fn_name fmt_fn = "fmt_fn"

unfoldable pub fn_type : KnownFn → String
fn_type clone_fn = "unsafe fn (&[u8]) -> Box<[u8]>"
fn_type clone_from_fn = "unsafe fn (&mut [u8], &[u8])"
fn_type clone_into_raw_fn = "unsafe fn (&[u8], &mut [u8])"
fn_type eq_fn = "unsafe fn (&[u8], &[u8]) -> bool"
fn_type hash_fn = "unsafe fn (&[u8], &mut dyn std::hash::Hasher)"
fn_type fmt_fn = "unsafe fn (&[u8], &mut std::fmt::Formatter) -> Result<(), std::fmt::Error>"

-- The path of a trait with its functions.
abbrev pub Table : Type 0
Table = SynPath × List KnownFn

abbrev pub std_path : String → String → SynPath
std_path module_name trait_name = record {
  leading_colon = false;
  segments =
      record { ident = "std"; arguments = absent }
      ∷ record { ident = module_name; arguments = absent }
      ∷ record { ident = trait_name; arguments = absent }
      ∷ [];
}

abbrev pub known_traits : List Table
known_traits =
    (name "Clone", clone_fn ∷ clone_from_fn ∷ clone_into_raw_fn ∷ [])
    ∷ (name "PartialEq", eq_fn ∷ [])
    ∷ (name "Eq", [])
    ∷ (std_path "hash" "Hash", hash_fn ∷ [])
    ∷ (std_path "fmt" "Debug", fmt_fn ∷ [])
    ∷ []

-- The equality of paths, which syn derives.
unfoldable pub arguments_eq : PathArguments → PathArguments → Bool
arguments_eq absent absent = true
arguments_eq empty_brackets empty_brackets = true
arguments_eq (given a) (given b) = str_eq a b
arguments_eq absent _ = false
arguments_eq empty_brackets _ = false
arguments_eq (given _) _ = false

unfoldable pub segments_eq : List Segment → List Segment → Bool
unfolding arguments_eq
segments_eq [] [] = true
segments_eq (a ∷ as') (b ∷ bs) =
    str_eq a.ident b.ident && arguments_eq a.arguments b.arguments && segments_eq as' bs
segments_eq [] (_ ∷ _) = false
segments_eq (_ ∷ _) [] = false

abbrev pub bool_eq : Bool → Bool → Bool
bool_eq true b = b
bool_eq false b = not b

unfoldable pub path_eq : SynPath → SynPath → Bool
unfolding segments_eq
path_eq a b = bool_eq a.leading_colon b.leading_colon && segments_eq a.segments b.segments

-- `known_traits.get_key_value`
unfoldable pub get_key_value : List Table → SynPath → Option Table
unfolding path_eq
get_key_value [] path = none
get_key_value ((key, table) ∷ tables) path =
    if path_eq key path then some (key, table) else get_key_value tables path

-- The closure that looks a supertrait up.
unfoldable pub recognize : Bound → Outcome (Option Table)
unfolding get_key_value
recognize (trait lifetimes modifier path) = if lifetimes || modifier then ok none else do
  seg ← unwrap (get_elem? path.segments 0)
  ok (if no_arguments seg.arguments then get_key_value known_traits path else none)
recognize (lifetime _) = ok none

abbrev pub keep : Option Table → List Table → List Table
keep none tables = tables
keep (some table) tables = table ∷ tables

-- `item_trait.supertraits.iter().filter_map(..).collect()`
unfoldable pub vtable_of : List Bound → Outcome (List Table)
vtable_of [] = ok []
vtable_of (bound ∷ bounds) = do
  found ← recognize bound
  tables ← vtable_of bounds
  ok (keep found tables)
