-- ===== src/Tests.antt =====
-- Runs at concrete inputs, and instances of the theorems.
pub mod Tables
pub mod Data
pub mod Use
pub mod Interceptor
pub mod Instrument
pub mod Lifetime
pub mod Watching
pub mod Chain
pub mod Binding
pub mod Ties
