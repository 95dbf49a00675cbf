-- ===== src/Sdo.antt =====
-- core/src/sdo: service data objects.
pub mod Payload
pub mod Codec
pub mod Block
pub mod Segment
pub mod Server
pub mod Client
pub mod Session
pub mod Stream
