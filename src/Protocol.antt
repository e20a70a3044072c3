-- ===== src/Protocol.antt =====
-- The VTP1 wire protocol.
pub mod Metadata
pub mod Quote
pub mod Trade
pub mod BookDelta
pub mod StatusMessage
pub mod Heartbeat
pub mod Header
pub mod MessageType
pub mod Frame
pub mod Decoder
pub mod Encoder
