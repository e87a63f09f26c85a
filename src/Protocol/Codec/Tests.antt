-- ===== src/Protocol/Codec/Tests.antt =====
-- Tests of the codec, and its theorems at a concrete frame.
use motorcycle_computer.Base.{◌≡◌, refl, arith, ℕ, some, none, List, [], ◌∷◌, replicate, set}
use motorcycle_computer.Protocol.Packet.{
  Packet, IsPacket, empty_packet, ok, frame_too_short, crc_mismatch, length_mismatch,
  payload_too_large, invalid_sync, unsupported_version,
}
use motorcycle_computer.Protocol.Packet.NodeAddress
use motorcycle_computer.Protocol.Packet.MessageType
use motorcycle_computer.Protocol.Crc.{crc16_ccitt_false}
use motorcycle_computer.Protocol.Codec.{
  write_u16_be, read_u16_be, encoded_size, frame_body, encode_packet, fill_packet, decode_packet,
}
use motorcycle_computer.Protocol.Codec.RoundTrip.{decode-encode}
use motorcycle_computer.Protocol.Codec.Reencode.{encode-decode}

-- The packet of tests/protocol_smoke_test.cpp: the left indicator on.
abbrev pub left_on : Packet
left_on = record {
  source = NodeAddress.main_computer;
  destination = NodeAddress.lighting;
  type = MessageType.set_output;
  flags = 1;
  sequence = 0x1234;
  length = 2;
  payload = 1 ∷ 1 ∷ replicate 126 0;
}

abbrev pub left_on_frame : List ℕ
left_on_frame = 0xA5 ∷ 0x5A ∷ 1 ∷ 1 ∷ 0x20 ∷ 0x20 ∷ 1 ∷ 0x12 ∷ 0x34 ∷ 2 ∷ 1 ∷ 1 ∷ 0x62 ∷ 0x65 ∷ []

pub left_on-IsPacket : IsPacket left_on
left_on-IsPacket = omega arith

pub encode-left_on : encode_packet left_on (some 140) ≡ some left_on_frame
unfolding encode_packet encoded_size frame_body write_u16_be crc16_ccitt_false
encode-left_on = refl

decode-left_on : decode_packet (some left_on_frame) empty_packet ≡ (ok, left_on)
unfolding decode_packet read_u16_be fill_packet crc16_ccitt_false
decode-left_on = refl

-- The first byte of the payload flipped, as the test does.
decode-flipped : (decode_packet (some (set left_on_frame 10 0)) empty_packet).0 ≡ crc_mismatch
unfolding decode_packet read_u16_be fill_packet crc16_ccitt_false
decode-flipped = refl

decode_refuses :
    ((decode_packet none empty_packet).0 ≡ frame_too_short)
    × ((decode_packet (some (set left_on_frame 0 0)) empty_packet).0 ≡ invalid_sync)
    × ((decode_packet (some (set left_on_frame 2 2)) empty_packet).0 ≡ unsupported_version)
    × ((decode_packet (some (set left_on_frame 9 129)) empty_packet).0 ≡ payload_too_large)
    × ((decode_packet (some (set left_on_frame 9 3)) empty_packet).0 ≡ length_mismatch)
unfolding decode_packet
decode_refuses = (refl, refl, refl, refl, refl)

decode-encode_example : decode_packet (some left_on_frame) empty_packet ≡ (ok, left_on)
decode-encode_example =
    decode-encode left_on empty_packet 140 left_on_frame left_on-IsPacket encode-left_on

encode-decode_example : IsPacket left_on × (encode_packet left_on (some 140) ≡ some left_on_frame)
encode-decode_example =
    encode-decode left_on_frame empty_packet left_on 140 (omega arith) (omega arith) decode-left_on
      (omega arith)
