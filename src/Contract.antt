-- ===== src/Contract.antt =====
-- crates/aelf-contract: dynamic contracts over a descriptor pool, the normalization of their JSON, and typed wrappers.
pub mod Reflect
pub mod Normalize
pub mod Dynamic
pub mod Typed
pub mod Counting
