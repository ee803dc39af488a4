-- ===== src/Interceptors.antt =====
-- core/kedr_coi_interceptors.c: the interceptors for objects with operations of their own, and the
-- factory interceptors that are bound to them.
pub mod Types
pub mod Factory
pub mod Normal
pub mod Sound
pub mod Stopping
pub mod Starting
pub mod Registering
pub mod Reach
pub mod Guards
