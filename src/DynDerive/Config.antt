-- ===== src/DynDerive/Config.antt =====
-- `Config` and `DynAttrib` of dyn-derive/src/lib.rs: the arguments of the attribute `dyn_trait`.
-- `Stream` is the input of a parser; the parsers that syn has are parameters.
use buffer.Common.{Option, none, some, List, [], ◌∷◌, Bool, true, false, if◌then◌else◌}
use Prim.Native.String.{String}
use text.Mathlib.Text.{◌==◌ as str_eq}

pub record Config : Type 0 where
  pub dyn_crate_name : String
  pub suffix : String
  pub build_vtable_only : Bool

abbrev pub default : Config
default = record { dyn_crate_name = "dyn"; suffix = "VTable"; build_vtable_only = false }

-- A literal: a string by its value, any other by its text.
pub data Lit : Type 0 where
  str : String → Lit
  other : String → Lit

-- `eq` says whether there is an `=`.
pub record DynAttrib : Type 0 where
  pub ident : String
  pub eq : Bool
  pub value : Option Lit

-- The arms of the match on the name of an attribute and its value.
unfoldable pub apply_attrib : Config → String → Option Lit → Config
apply_attrib config name none =
    if str_eq name "build_vtable_only" then record config { build_vtable_only = true } else config
apply_attrib config name (some (str lit)) =
    if str_eq name "dyn_crate_name"
    then record config { dyn_crate_name = lit }
    else if str_eq name "suffix"
    then record config { suffix = lit }
    else config
apply_attrib config name (some (other _)) = config

-- `for attrib in attribs.iter()`
unfoldable pub apply_attribs : Config → List DynAttrib → Config
apply_attribs config [] = config
apply_attribs config (attrib ∷ attribs) =
    apply_attribs (apply_attrib config attrib.ident attrib.value) attribs

-- A failed parse is `none`.
infixl 5 ◌>>=◌
abbrev ◌>>=◌ {ℓ κ} : {A : Type ℓ} {B : Type κ} → Option A → (A → Option B) → Option B
none >>= next = none
some a >>= next = next a

module _ {Stream : Type 0} where
  -- `parse_ident`, `parse_eq` and `parse_lit` are `input.parse()` at `Ident`, `Option<Token![=]>`
  -- and `Option<Lit>`.
  unfoldable pub parse_attrib :
      (Stream → Option (String × Stream))
      → (Stream → Option (Bool × Stream))
      → (Stream → Option (Option Lit × Stream))
      → Stream
      → Option (DynAttrib × Stream)
  parse_attrib parse_ident parse_eq parse_lit input = do
    (ident, input) ← parse_ident input
    (eq, input) ← parse_eq input
    (value, input) ← parse_lit input
    some (record { ident = ident; eq = eq; value = value }, input)

  -- `parse_separated_nonempty` is that of syn's `Punctuated`.
  unfoldable pub parse :
      ((Stream → Option (DynAttrib × Stream)) → Stream → Option (List DynAttrib × Stream))
      → (Stream → Option (DynAttrib × Stream))
      → Stream
      → Option (Config × Stream)
  parse parse_separated_nonempty parse_attrib input = do
    (attribs, input) ← parse_separated_nonempty parse_attrib input
    some (apply_attribs default attribs, input)
