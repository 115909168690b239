-- ===== src/DynDerive.antt =====
-- The macros of dyn-derive/src/lib.rs, as functions from syntax to syntax.
pub mod Syntax
pub mod Config
pub mod SelfType
pub mod Generics
pub mod Signature
pub mod KnownTraits
pub mod Functions
pub mod Items
pub mod Laws
