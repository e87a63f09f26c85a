-- ===== src/Protocol/Codec/RoundTrip.antt =====
-- Encoding and decoding are inverse to one another.
use motorcycle_computer.Base.{
  ℕ, ◌+◌, ◌*◌, ◌/◌, ◌%◌, ◌≤◌, ◌<◌, ◌≡◌, refl, arith, some, List, ◌++◌, length, take, drop, get_or,
  u8, length-take, get_or-append_left, get_or-append_right, take-append_length, length-append, ap,
}
use motorcycle_computer.Base.Bits.{bit_or_byte}
use motorcycle_computer.Protocol.Packet.{
  Packet, IsPacket, ok, sync_byte1, sync_byte2, protocol_version, max_payload_size, header_size,
  crc_size,
}
use motorcycle_computer.Protocol.Crc.{crc16_ccitt_false, crc16_ccitt_false-lt}
use motorcycle_computer.Protocol.Codec.{
  write_u16_be, read_u16_be, encoded_size, frame_body, encode_packet, fill_packet, decode_packet,
}

-- The checks of the decoder.
pub record IsFrame (frame : List ℕ) (payload_length : ℕ) : Type 0 where
  pub sync1 : get_or frame 0 0 ≡ sync_byte1
  pub sync2 : get_or frame 1 0 ≡ sync_byte2
  pub version : get_or frame 2 0 ≡ protocol_version
  pub declared : get_or frame 9 0 ≡ payload_length
  pub fits : payload_length ≤ max_payload_size
  pub size : length frame ≡ header_size + payload_length + crc_size
  pub crc :
      read_u16_be frame (header_size + payload_length)
      ≡ crc16_ccitt_false (take (header_size + payload_length) frame)

pub decode_packet_of_IsFrame :
    (frame : List ℕ) (n : ℕ) (out : Packet)
    → IsFrame frame n
    → decode_packet (some frame) out ≡ (ok, fill_packet frame n out)
unfolding decode_packet
decode_packet_of_IsFrame frame n out v = ground arith

pub IsFrame-of_decode_packet :
    (frame : List ℕ) (out p : Packet)
    → decode_packet (some frame) out ≡ (ok, p)
    → IsFrame frame (get_or frame 9 0) × (p ≡ fill_packet frame (get_or frame 9 0) out)
unfolding decode_packet
IsFrame-of_decode_packet frame out p h = ground arith

pub read_u16_be_lem :
    (bytes : List ℕ) (i hi lo : ℕ)
    → get_or bytes i 0 ≡ hi
    → get_or bytes (i + 1) 0 ≡ lo
    → hi < 256
    → lo < 256
    → read_u16_be bytes i ≡ hi * 256 + lo
unfolding read_u16_be
read_u16_be_lem bytes i hi lo eh el h l = ground (arith, bit_or_byte hi lo)

-- What the encoder writes, if it writes.
encode_packet-some :
    (p : Packet) (cap : ℕ) (frame : List ℕ)
    → encode_packet p (some cap) ≡ some frame
    → (p.length ≤ max_payload_size)
      × (p.length + 12 ≤ cap)
      × (frame ≡ frame_body p ++ write_u16_be (crc16_ccitt_false (frame_body p)))
unfolding encode_packet encoded_size
encode_packet-some p cap frame h = ground arith

pub encode_packet_of_fits :
    (p : Packet) (cap : ℕ)
    → p.length ≤ max_payload_size
    → p.length + 12 ≤ cap
    → encode_packet p (some cap)
      ≡ some (frame_body p ++ write_u16_be (crc16_ccitt_false (frame_body p)))
unfolding encode_packet encoded_size
encode_packet_of_fits p cap h room = ground arith

module _ (p : Packet) (valid : IsPacket p) (fits : p.length ≤ max_payload_size) where
  pub length-frame_body : length (frame_body p) ≡ header_size + p.length
  unfolding frame_body
  length-frame_body =
      omega (arith, valid.payload_size, length-take p.length p.payload (omega arith))

  module _ (sum : ℕ) (sum_lt : sum < 65536) where
    get_or-frame_body :
        (i : ℕ) → i < 10 → get_or (frame_body p ++ write_u16_be sum) i 0 ≡ get_or (frame_body p) i 0
    get_or-frame_body i h =
        get_or-append_left (frame_body p) _ i 0 (omega (arith, length-frame_body))

    get_or-sum_high :
        get_or (frame_body p ++ write_u16_be sum) (header_size + p.length) 0 ≡ sum / 256
    unfolding write_u16_be
    get_or-sum_high = omega (
      arith,
      get_or-append_right (frame_body p) (write_u16_be sum) (header_size + p.length) 0 0
          (omega (arith, length-frame_body)),
    )

    get_or-sum_low :
        get_or (frame_body p ++ write_u16_be sum) (header_size + p.length + 1) 0 ≡ sum % 256
    unfolding write_u16_be
    get_or-sum_low =
        get_or-append_right (frame_body p) (write_u16_be sum) (header_size + p.length + 1) 1 0
          (omega (arith, length-frame_body))

    read-sum : read_u16_be (frame_body p ++ write_u16_be sum) (header_size + p.length) ≡ sum
    read-sum = omega (
      arith,
      read_u16_be_lem (frame_body p ++ write_u16_be sum) (header_size + p.length) (sum / 256)
          (sum % 256) get_or-sum_high get_or-sum_low (omega arith) (omega arith),
    )

  encoded-size : (sum : ℕ) → length (frame_body p ++ write_u16_be sum) ≡ 12 + p.length
  unfolding write_u16_be
  encoded-size sum =
      omega (arith, length-append (frame_body p) (write_u16_be sum), length-frame_body)

  encoded-crc :
      let frame = frame_body p ++ write_u16_be (crc16_ccitt_false (frame_body p)) in
      read_u16_be frame (header_size + p.length)
      ≡ crc16_ccitt_false (take (header_size + p.length) frame)
  encoded-crc =
      rw (take-append_length (frame_body p) _ (header_size + p.length) length-frame_body)
        (read-sum (crc16_ccitt_false (frame_body p)) (crc16_ccitt_false-lt (frame_body p)))

  encoded-IsFrame :
      IsFrame (frame_body p ++ write_u16_be (crc16_ccitt_false (frame_body p))) p.length
  unfolding frame_body
  encoded-IsFrame = record {
    sync1 = refl;
    sync2 = refl;
    version = refl;
    declared = omega arith;
    fits = fits;
    size = omega (arith, encoded-size (crc16_ccitt_false (frame_body p)));
    crc = encoded-crc;
  }

  encoded-fill :
      (out : Packet) (sum : ℕ)
      → fill_packet (frame_body p ++ write_u16_be sum) p.length out
        ≡ record p { payload = take p.length p.payload ++ drop p.length out.payload }
  unfolding frame_body write_u16_be fill_packet
  encoded-fill out sum = ground (
    arith,
    read_u16_be_lem (frame_body p ++ write_u16_be sum) 7 (u8 (p.sequence / 256)) (u8 p.sequence)
        refl refl (omega arith) (omega arith),
    valid.sequence_lt,
    take-append_length (take p.length p.payload) (write_u16_be sum) p.length
        (length-take p.length p.payload (omega (arith, valid.payload_size))),
  )

-- A packet that the encoder accepts comes back from the decoder as it was, but for the bytes of
-- its payload array past its length, which are those that the array held before.
pub decode-encode :
    (p out : Packet) (cap : ℕ) (frame : List ℕ)
    → IsPacket p
    → encode_packet p (some cap) ≡ some frame
    → decode_packet (some frame) out
      ≡ (ok, record p { payload = take p.length p.payload ++ drop p.length out.payload })
decode-encode p out cap frame valid h =
    let (fits, _, e) = encode_packet-some p cap frame h in
    rw (e, decode_packet_of_IsFrame _ p.length out (encoded-IsFrame p valid fits))
      (ap (λ q. (ok, q)) (encoded-fill p valid fits out _))
