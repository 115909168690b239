-- ===== src/DynDerive/Laws.antt =====
-- What holds of the macros of dyn-derive/src/lib.rs.
pub mod Functions
pub mod Paths
pub mod Checks
pub mod Passed
pub mod Convert
pub mod Supported
pub mod Params
pub mod Signatures
pub mod Where
pub mod Attributes
pub mod Access
pub mod Generated
pub mod Supertraits
