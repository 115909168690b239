-- ===== src/VecCopy/Laws.antt =====
-- What the operations of `VecCopy` do to a buffer of typed values.
pub mod Push
pub mod Read
pub mod Build
pub mod Constructors
pub mod Move
pub mod Erased
pub mod Collect
pub mod Types
pub mod Valid
pub mod Reach
pub mod Cast
pub mod Display
pub mod Equality
pub mod Serde
