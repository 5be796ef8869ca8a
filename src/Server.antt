-- ===== src/Server.antt =====
-- The Braid server (core/src/core/server).
pub mod Resources
pub mod Conflict
