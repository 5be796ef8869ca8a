-- ===== src/Types.antt =====
-- The data types of the Braid protocol (core/src/core/types).
pub mod Version
pub mod Patch
pub mod ContentRange
pub mod Update
mod Examples
