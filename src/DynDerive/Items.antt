-- ===== src/DynDerive/Items.antt =====
-- `construct_dyn_items` and the macro `dyn_trait` of dyn-derive/src/lib.rs: the items that a trait
-- gets, which are a table of functions, the access to them, and the code that builds the table.
use buffer.Common.{
  ℕ, ◌+◌, Outcome, ok, ◌>>=◌, ◌>>◌, assert, Option, none, some, List, [], ◌∷◌, Bool, map, ◌++◌,
}
use Prim.Native.String.{String, ◌++◌ as ◌<>◌}
use buffer.DynDerive.Syntax.{Segment, Bound, unwrap}
use buffer.DynDerive.SelfType.{is_none}
use buffer.DynDerive.Signature.{GenericParam, WherePredicate, is_empty}
use buffer.DynDerive.Config.{Config}
use buffer.DynDerive.KnownTraits.{KnownFn, fn_name, fn_type, Table, vtable_of}

-- The parts of a trait that the macro looks at. `rest` is its text.
pub record ItemTrait : Type 0 where
  pub vis : String
  pub ident : String
  pub params : List GenericParam
  pub where_clause : Option (List WherePredicate)
  pub supertraits : List Bound
  pub rest : String

-- What `(a, b, ..)` is in Rust: `(a)` is `a`, and other numbers of parts make a tuple.
pub data Grouped {ℓ} (A : Type ℓ) : Type ℓ where
  single : A → Grouped A
  tuple : List A → Grouped A

abbrev pub parens {ℓ} : {A : Type ℓ} → List A → Grouped A
parens [] = tuple []
parens (a ∷ []) = single a
parens (a ∷ b ∷ rest) = tuple (a ∷ b ∷ rest)

-- `&self.i` and `&(self.i).j`
pub data Access : Type 0 where
  field : ℕ → Access
  field_at : ℕ → ℕ → Access

-- `fn #fn_name ( &self ) -> &#fn_type { .. }`
pub record Method : Type 0 where
  pub name : String
  pub ty : String
  pub body : Access

-- `impl #crate_name :: #has_trait for #vtable_name { #methods }`
pub record HasImpl : Type 0 where
  pub crate_name : String
  pub has_trait : String
  pub vtable_name : String
  pub methods : List Method

-- What the macro generates: the struct with its fields, the access to them, and `build_vtable`, which
-- declares the functions, and puts those at `T` into the struct.
pub record DynItems : Type 0 where
  pub vis : String
  pub vtable_name : String
  pub vtable_fields : List (Grouped String)
  pub has_impls : List HasImpl
  pub trait_name : String
  pub crate_name : String
  pub fns_defs : List String
  pub vtable_constructor : List (Grouped String)

-- `for (fn_idx_usize, (fn_type, fn_def)) in table.iter().enumerate()`, from index `j` on.
unfoldable pub tuple_methods : ℕ → ℕ → List KnownFn → List Method
tuple_methods i j [] = []
tuple_methods i j (f ∷ table) =
    record { name = fn_name f; ty = fn_type f; body = field_at i j } ∷ tuple_methods i (j + 1) table

-- The methods for the functions of one trait, whose field is `i`.
unfoldable pub methods_of : ℕ → List KnownFn → List Method
methods_of i (f ∷ []) = record { name = fn_name f; ty = fn_type f; body = field i } ∷ []
methods_of i table = tuple_methods i 0 table

-- The last segment of a path.
unfoldable pub last : List Segment → Option Segment
last [] = none
last (s ∷ []) = some s
last (_ ∷ s ∷ segments) = last (s ∷ segments)

-- `#fn_name::<T>` for each function of each table.
unfoldable pub constructor_of : List Table → List (Grouped String)
constructor_of tables = map (λ (t : Table). parens (map fn_name t.1)) tables

unfoldable pub fields_of : List Table → List (Grouped String)
fields_of tables = map (λ (t : Table). parens (map fn_type t.1)) tables

-- `vtable.iter().flat_map(..)`
unfoldable pub fns_of : List Table → List String
fns_of [] = []
fns_of ((_, table) ∷ tables) = map fn_name table ++ fns_of tables

-- The functions that the others use.
abbrev pub byte_helpers : List String
byte_helpers = "from_bytes" ∷ "from_bytes_mut" ∷ "as_bytes" ∷ "box_into_box_bytes" ∷ []

-- `is_ident` says which texts are identifiers, and `Ident::new` panics on others.
module _ (is_ident : String → Bool) where
  unfoldable pub new_ident : String → Outcome String
  new_ident text = do assert (is_ident text); ok text

  unfoldable pub has_impl : String → String → ℕ → Table → Outcome HasImpl
  has_impl crate_name vtable_name i (path, table) = do
    supertrait ← unwrap (last path.segments)
    has_trait ← new_ident ("Has" <> supertrait.ident)
    ok (record {
      crate_name = crate_name;
      has_trait = has_trait;
      vtable_name = vtable_name;
      methods = methods_of i table;
    })

  -- `for (table_idx_usize, (path, table)) in vtable.iter().enumerate()`, from index `i` on.
  unfoldable pub has_impls_of : String → String → ℕ → List Table → Outcome (List HasImpl)
  has_impls_of crate_name vtable_name i [] = ok []
  has_impls_of crate_name vtable_name i (table ∷ tables) = do
    first ← has_impl crate_name vtable_name i table
    rest ← has_impls_of crate_name vtable_name (i + 1) tables
    ok (first ∷ rest)

  unfoldable pub construct_dyn_items : ItemTrait → Config → Outcome DynItems
  construct_dyn_items item_trait config = do
    assert (is_empty item_trait.params)
    assert (is_none item_trait.where_clause)
    vtable_name ← new_ident (item_trait.ident <> config.suffix)
    vtable ← vtable_of item_trait.supertraits
    crate_name ← new_ident config.dyn_crate_name
    has_impls ← has_impls_of crate_name vtable_name 0 vtable
    ok (record {
      vis = item_trait.vis;
      vtable_name = vtable_name;
      vtable_fields = fields_of vtable;
      has_impls = has_impls;
      trait_name = item_trait.ident;
      crate_name = crate_name;
      fns_defs = byte_helpers ++ fns_of vtable;
      vtable_constructor = constructor_of vtable;
    })

  -- `parse_config` and `parse_item` are `syn::parse` of the arguments and of the item. The item stays,
  -- with the generated ones behind it.
  unfoldable pub dyn_trait :
      {TokenStream : Type 0}
      → (TokenStream → Option Config)
      → (TokenStream → Option ItemTrait)
      → TokenStream
      → TokenStream
      → Outcome (ItemTrait × DynItems)
  dyn_trait parse_config parse_item attr item = do
    config ← unwrap (parse_config attr)
    item_trait ← unwrap (parse_item item)
    dyn_items ← construct_dyn_items item_trait config
    ok (item_trait, dyn_items)
