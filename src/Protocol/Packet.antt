-- ===== src/Protocol/Packet.antt =====
-- protocol/include/bike_protocol/packet.hpp, addresses.hpp and messages.hpp.
--
-- `NodeAddress`, `MessageType` and `PacketFlags` are enumerations over `std::uint8_t`, and the code
-- casts any received byte to them: a value is a number below 256, and the enumerators are constants.
pub mod NodeAddress
pub mod MessageType
use motorcycle_computer.Base.{ℕ, ◌+◌, ◌<◌, ◌≡◌, List, [], ◌∷◌, length, replicate, All}

abbrev pub sync_byte1 : ℕ
sync_byte1 = 0xA5

abbrev pub sync_byte2 : ℕ
sync_byte2 = 0x5A

abbrev pub protocol_version : ℕ
protocol_version = 0x01

abbrev pub max_payload_size : ℕ
max_payload_size = 128

abbrev pub header_size : ℕ
header_size = 10

abbrev pub crc_size : ℕ
crc_size = 2

abbrev pub max_frame_size : ℕ
max_frame_size = header_size + max_payload_size + crc_size

abbrev pub flag_none : ℕ
flag_none = 0x00

abbrev pub flag_ack_required : ℕ
flag_ack_required = 0x01

abbrev pub flag_response : ℕ
flag_response = 0x02

abbrev pub flag_fault : ℕ
flag_fault = 0x04

-- `payload` is the whole array, of which the first `length` bytes are sent.
pub record Packet : Type 0 where
  pub source : ℕ
  pub destination : ℕ
  pub type : ℕ
  pub flags : ℕ
  pub sequence : ℕ
  pub length : ℕ
  pub payload : List ℕ

-- `Packet{}`.
abbrev pub empty_packet : Packet
empty_packet = record {
  source = NodeAddress.main_computer;
  destination = NodeAddress.northbridge;
  type = MessageType.heartbeat;
  flags = flag_none;
  sequence = 0;
  length = 0;
  payload = replicate max_payload_size 0;
}

-- The fields keep to the ranges of their types.
pub record IsPacket (p : Packet) : Type 0 where
  pub source_lt : p.source < 256
  pub destination_lt : p.destination < 256
  pub type_lt : p.type < 256
  pub flags_lt : p.flags < 256
  pub sequence_lt : p.sequence < 65536
  pub length_lt : p.length < 65536
  pub payload_size : length p.payload ≡ max_payload_size
  pub payload_lt : All (λ b. b < 256) p.payload

-- The status that `decode_packet` returns.
pub data DecodeStatus : Type 0 where
  ok frame_too_short invalid_sync unsupported_version payload_too_large : DecodeStatus
  length_mismatch crc_mismatch : DecodeStatus
