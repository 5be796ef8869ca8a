-- ===== src/Antimatter.antt =====
-- The antimatter algorithm (core/src/antimatter): its messages, its version graph and a peer.
pub mod JsonCrdt
mod Examples
pub mod Messages
pub mod Search
pub mod Peer
pub mod Bubble
pub mod Prune
pub mod Ackme
pub mod Sequence
