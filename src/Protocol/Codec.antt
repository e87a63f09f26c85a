-- ===== src/Protocol/Codec.antt =====
-- protocol/src/codec.cpp: `encode_packet` and `decode_packet`.
pub mod RoundTrip
pub mod Reencode
pub mod Tests
use motorcycle_computer.Base.{
  ℕ, ◌+◌, ◌*◌, ◌/◌, ◌%◌, Bool, ◌||◌, Option, none, some, List, [], ◌∷◌, ◌++◌, length, take, drop,
  get_or, u8, u16, ltb, ◌!=◌, if◌then◌else◌, bit_or,
}
use motorcycle_computer.Protocol.Packet.{
  Packet, DecodeStatus, ok, frame_too_short, invalid_sync, unsupported_version, payload_too_large,
  length_mismatch, crc_mismatch, sync_byte1, sync_byte2, protocol_version, max_payload_size,
  header_size, crc_size,
}
use motorcycle_computer.Protocol.Crc.{crc16_ccitt_false}

-- The two bytes that go out.
unfoldable pub write_u16_be : ℕ → List ℕ
write_u16_be value = u8 (value / 256) ∷ u8 value ∷ []

unfoldable pub read_u16_be : List ℕ → ℕ → ℕ
read_u16_be bytes i = u16 (bit_or (get_or bytes i 0 * 256) (get_or bytes (i + 1) 0))

unfoldable pub encoded_size : Packet → ℕ
encoded_size p = header_size + p.length + crc_size

-- The frame up to the checksum.
unfoldable pub frame_body : Packet → List ℕ
unfolding write_u16_be
frame_body p =
    sync_byte1
    ∷ sync_byte2
    ∷ protocol_version
    ∷ p.source
    ∷ p.destination
    ∷ p.type
    ∷ p.flags
    ∷ (write_u16_be p.sequence ++ u8 p.length ∷ take p.length p.payload)

-- The capacity is `none` for a null buffer. The result is `none` where the function returns false
-- and reports no bytes, and otherwise the `out_length` bytes that it writes.
unfoldable pub encode_packet : Packet → Option ℕ → Option (List ℕ)
encode_packet p none = none
encode_packet p (some out_capacity) =
    if ltb max_payload_size p.length
    then none
    else if ltb out_capacity (encoded_size p)
    then none
    else some (frame_body p ++ write_u16_be (crc16_ccitt_false (frame_body p)))

-- What a frame that passes every check leaves in `out_packet`.
unfoldable pub fill_packet : List ℕ → ℕ → Packet → Packet
fill_packet frame payload_length out_packet = record {
  source = get_or frame 3 0;
  destination = get_or frame 4 0;
  type = get_or frame 5 0;
  flags = get_or frame 6 0;
  sequence = read_u16_be frame 7;
  length = payload_length;
  payload = take payload_length (drop header_size frame) ++ drop payload_length out_packet.payload;
}

-- The frame is `none` for a null pointer; `out_packet` is passed in and returned.
unfoldable pub decode_packet : Option (List ℕ) → Packet → DecodeStatus × Packet
decode_packet none out_packet = (frame_too_short, out_packet)
decode_packet (some frame) out_packet =
    let payload_length = get_or frame 9 0 in
    let expected_crc = read_u16_be frame (header_size + payload_length) in
    let actual_crc = crc16_ccitt_false (take (header_size + payload_length) frame) in
    if ltb (length frame) (header_size + crc_size)
    then (frame_too_short, out_packet)
    else if get_or frame 0 0 != sync_byte1 || get_or frame 1 0 != sync_byte2
    then (invalid_sync, out_packet)
    else if get_or frame 2 0 != protocol_version
    then (unsupported_version, out_packet)
    else if ltb max_payload_size payload_length
    then (payload_too_large, out_packet)
    else if length frame != header_size + payload_length + crc_size
    then (length_mismatch, out_packet)
    else if expected_crc != actual_crc
    then (crc_mismatch, out_packet)
    else (ok, fill_packet frame payload_length out_packet)
