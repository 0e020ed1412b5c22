-- ===== src/Protocol.antt =====
-- The crate `protocol`: protocol/src/messages.rs and protocol/src/codec.rs.
pub mod Messages
pub mod Codec
mod Examples
