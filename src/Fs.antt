-- ===== src/Fs.antt =====
-- File system synchronisation (core/src/fs).
pub mod RateLimiter
