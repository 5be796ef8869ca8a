-- ===== src/Merge.antt =====
-- The merge types (core/src/core/merge).
pub mod Types
pub mod Sync9
pub mod Diamond
