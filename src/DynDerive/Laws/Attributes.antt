-- ===== src/DynDerive/Laws/Attributes.antt =====
-- What the arguments of `dyn_trait` in dyn-derive/src/lib.rs make of the configuration.
use buffer.Common.{
  refl, arith, ◌≡◌, Option, none, some, List, [], ◌∷◌, Bool, true, false, ◌||◌, ◌&&◌, ◌∙◌,
  if◌then◌else◌,
}
use Prim.Native.String.{String}
use text.Mathlib.Text.{◌==◌ as str_eq}
use buffer.DynDerive.SelfType.{is_none}
use text.Mathlib.TextEquality.{eq_iff}
use buffer.DynDerive.Items.{ItemTrait, construct_dyn_items}
use buffer.DynDerive.Config.{default, Config, apply_attribs, apply_attrib, Lit, DynAttrib}

abbrev pub value_string : Option Lit → Option String
value_string none = none
value_string (some (Lit.str s)) = some s
value_string (some (Lit.other _)) = none

-- The string of an argument `key = "string"`.
abbrev pub string_of : String → String → Option Lit → Option String
string_of key n value = if str_eq n key then value_string value else none

-- Whether an argument is `key` alone.
abbrev pub is_flag : String → String → Option Lit → Bool
is_flag key n value = str_eq n key && is_none value

abbrev pub or_else : Option String → String → String
or_else none s = s
or_else (some s') s = s'

-- The last of the strings of `key`, or what is given.
abbrev pub last_or : String → String → List DynAttrib → String
last_or key s [] = s
last_or key s (a ∷ attribs) = last_or key (or_else (string_of key a.ident a.value) s) attribs

abbrev pub has_flag : String → List DynAttrib → Bool
has_flag key [] = false
has_flag key (a ∷ attribs) = is_flag key a.ident a.value || has_flag key attribs

or_assoc : (a b c : Bool) → ((a || b) || c) ≡ (a || (b || c))
or_assoc true b c = refl
or_assoc false b c = refl

keys_differ : (n : String) → str_eq n "dyn_crate_name" ≡ true → str_eq n "suffix" ≡ false
keys_differ n h = rw ((eq_iff n "dyn_crate_name").0 h) refl

apply_attrib_lem :
    (config : Config) (n : String) (value : Option Lit)
    → apply_attrib config n value ≡ record {
      dyn_crate_name = or_else (string_of "dyn_crate_name" n value) config.dyn_crate_name;
      suffix = or_else (string_of "suffix" n value) config.suffix;
      build_vtable_only = config.build_vtable_only || is_flag "build_vtable_only" n value;
    }
unfolding apply_attrib
apply_attrib_lem config n none = ground (arith)
apply_attrib_lem config n (some (Lit.str s)) = ground (arith, keys_differ n)
apply_attrib_lem config n (some (Lit.other s)) = ground arith

pub apply_attribs_lem :
    (attribs : List DynAttrib) (config : Config)
    → apply_attribs config attribs ≡ record {
      dyn_crate_name = last_or "dyn_crate_name" config.dyn_crate_name attribs;
      suffix = last_or "suffix" config.suffix attribs;
      build_vtable_only = config.build_vtable_only || has_flag "build_vtable_only" attribs;
    }
unfolding apply_attribs
apply_attribs_lem [] config = ground arith
apply_attribs_lem (a ∷ attribs) config = rw (apply_attrib_lem config a.ident a.value) (
    apply_attribs_lem attribs (record {
      dyn_crate_name = or_else (string_of "dyn_crate_name" a.ident a.value) config.dyn_crate_name;
      suffix = or_else (string_of "suffix" a.ident a.value) config.suffix;
      build_vtable_only = config.build_vtable_only || is_flag "build_vtable_only" a.ident a.value;
    })
    ∙ ground (
      arith,
      or_assoc config.build_vtable_only (is_flag "build_vtable_only" a.ident a.value)
          (has_flag "build_vtable_only" attribs),
    ))

-- The configuration that `dyn_trait` makes of its arguments.
abbrev pub parsed : List DynAttrib → Config
parsed attribs = apply_attribs default attribs

module _ (is_ident : String → Bool) (item_trait : ItemTrait) (xs ys : List DynAttrib)
    (same_suffix : last_or "suffix" "VTable" xs ≡ last_or "suffix" "VTable" ys)
    (same_crate : last_or "dyn_crate_name" "dyn" xs ≡ last_or "dyn_crate_name" "dyn" ys) where
  -- Arguments of `dyn_trait` with the same last string for `suffix`, and the same last one for
  -- `dyn_crate_name`, where a missing one is the default, generate the same items, whatever else
  -- is among them, `build_vtable_only` too.
  pub construct_dyn_items-parsed :
      construct_dyn_items is_ident item_trait (parsed xs)
      ≡ construct_dyn_items is_ident item_trait (parsed ys)
  unfolding construct_dyn_items
  construct_dyn_items-parsed =
      rw (apply_attribs_lem xs default, apply_attribs_lem ys default, same_suffix, same_crate) refl
