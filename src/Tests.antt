-- ===== src/Tests.antt =====
-- Runs of the definitions on small inputs, and the theorems at inputs that meet their hypotheses.
mod Inputs
mod Worlds
mod Numbers
mod Buffers
mod Dyn
mod Calls
mod Conversions
mod Cache
mod Cloneable
mod DynDerive
