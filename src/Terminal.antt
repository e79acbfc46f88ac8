-- ===== src/Terminal.antt =====
-- The binary stream from a remote terminal to the window: its framing and its flow control.
pub mod Bytes
pub mod Flow
pub mod Batch
pub mod Gate
pub mod Examples
