-- ===== src/Protocol.antt =====
-- protocol/: the wire format that every node speaks.
pub mod Packet
pub mod Crc
pub mod Codec
pub mod DeviceInfo
