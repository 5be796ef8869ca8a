-- ===== src/Client.antt =====
-- The Braid client (core/src/core/client): its retry policy.
pub mod Retry
pub mod Messages
pub mod Parser
