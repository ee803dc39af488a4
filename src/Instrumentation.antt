-- ===== src/Instrumentation.antt =====
-- core/kedr_coi_instrumentors_impl.c: the replacement of operations in place and in a copy.
pub mod Replace
pub mod Place
pub mod Selected
pub mod Undo
pub mod Copy
