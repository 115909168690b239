-- ===== src/Std.antt =====
-- What the crate uses of the language and its standard library: machine words, vectors, slices.
pub mod Platform
pub mod Vec
pub mod Slice
pub mod Rc
