-- ===== src/Wire.antt =====
-- HW3/hw3/common/protocol.py and transport.py: the wire. Text has the string methods, Lines the
-- transport, Messages,
-- Validate and Codec the protocol; the other modules prove.
pub mod Text
pub mod Words
pub mod Messages
pub mod Validate
pub mod Codec
pub mod Ranges
pub mod Lines
mod Examples
