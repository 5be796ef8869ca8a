-- ===== src/Blob.antt =====
-- The blob store (core/src/blob/store.rs).
pub mod Names
pub mod Versions
pub mod Store
