-- ===== src/Protocol.antt =====
-- crates/protocol and crates/network/src/stream.rs: frames on the wire.
pub mod Header
pub mod Message
pub mod Codec
pub mod Stream
