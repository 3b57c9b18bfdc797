-- ===== src/Stream.antt =====
-- The Server-Sent Events codec, src/codec/bridge/stream.
pub mod Events
pub mod ChatEvent
pub mod Frames
pub mod ChatToResponses
pub mod ChatStats
pub mod Pipeline
pub mod Head
pub mod Lines
pub mod Decoder
