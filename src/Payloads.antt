-- ===== src/Payloads.antt =====
-- core/payloads.c and payloads.h: registered payloads, and what the used ones intercept.
pub mod Types
pub mod Parray
pub mod Operation
pub mod Registration
pub mod Use
pub mod Checked
pub mod Groups
pub mod Tidy
pub mod Lists
pub mod Spec
pub mod Collect
pub mod Fixing
pub mod Cancel
pub mod Using
pub mod Idle
