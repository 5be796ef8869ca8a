-- ===== src/Protocol.antt =====
-- The Braid wire protocol (core/src/core/protocol).
pub mod Multiplex
pub mod Headers
pub mod Formatter
