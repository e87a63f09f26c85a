-- ===== src/Sketch/Codec.antt =====
-- esp32s3C/Protocol.h and esp32s3C/Protocol.cpp: the packet, `crc16` and `encode`.
use motorcycle_computer.Base.{
  ℕ, zero, suc, ◌+◌, ◌*◌, ◌/◌, ◌<◌, ◌≡◌, refl, arith, ◌||◌, Option, some, none, List, [], ◌∷◌, ◌++◌,
  replicate, take, bit_and, bit_xor, u8, u16, ltb, ◌!=◌, if◌then◌else◌,
}
use motorcycle_computer.Protocol.Packet
use motorcycle_computer.Protocol.Crc.{crc_bit, crc_bits, crc_byte, crc_bytes, crc16_ccitt_false}
use motorcycle_computer.Protocol.Codec.{encode_packet, encoded_size, frame_body, write_u16_be}

abbrev pub sync1 : ℕ
sync1 = 0xA5

abbrev pub sync2 : ℕ
sync2 = 0x5A

abbrev pub version : ℕ
version = 1

abbrev pub main : ℕ
main = 0x01

abbrev pub north : ℕ
north = 0x10

abbrev pub light : ℕ
light = 0x20

abbrev pub security : ℕ
security = 0x21

abbrev pub broadcast : ℕ
broadcast = 0xFF

abbrev pub max_payload : ℕ
max_payload = 128

abbrev pub max_frame : ℕ
max_frame = 140

-- `Message` is an enumeration over `uint8_t`; the type of a packet is a plain number.
abbrev pub heartbeat : ℕ
heartbeat = 0x01

abbrev pub ack : ℕ
ack = 0x02

abbrev pub get_state : ℕ
get_state = 0x10

abbrev pub device_info : ℕ
device_info = 0x50

abbrev pub discovery : ℕ
discovery = 0x51

abbrev pub diagnostic : ℕ
diagnostic = 0x60

-- `payload` is the whole array, of which the first `len` bytes are sent.
pub record SketchPacket : Type 0 where
  pub src : ℕ
  pub dst : ℕ
  pub type : ℕ
  pub flags : ℕ
  pub seq : ℕ
  pub len : ℕ
  pub payload : List ℕ

-- `Packet{}`.
abbrev pub blank : SketchPacket
blank = record {
  src = 0;
  dst = 0;
  type = 0;
  flags = 0;
  seq = 0;
  len = 0;
  payload = replicate max_payload 0;
}

-- The inner loop of `crc16`, with the rounds left.
pub shift_bits : ℕ → ℕ → ℕ
shift_bits zero crc = crc
shift_bits (suc b) crc =
    shift_bits b (if bit_and crc 0x8000 != 0 then u16 (bit_xor (crc * 2) 0x1021) else u16 (crc * 2))

-- The outer loop.
pub shift_bytes : ℕ → List ℕ → ℕ
unfolding shift_bits
shift_bytes crc [] = crc
shift_bytes crc (byte ∷ bytes) = shift_bytes (shift_bits 8 (u16 (bit_xor crc (byte * 256)))) bytes

unfoldable pub crc16 : List ℕ → ℕ
unfolding shift_bytes
crc16 bytes = shift_bytes 0xFFFF bytes

-- The frame up to the checksum.
unfoldable pub frame_start : SketchPacket → List ℕ
frame_start p =
    sync1
    ∷ sync2
    ∷ version
    ∷ p.src
    ∷ p.dst
    ∷ p.type
    ∷ p.flags
    ∷ u8 (p.seq / 256)
    ∷ u8 p.seq
    ∷ p.len
    ∷ take p.len p.payload

-- `none` where the function returns false.
unfoldable pub encode : SketchPacket → ℕ → Option (List ℕ)
encode p cap =
    let crc = crc16 (frame_start p) in
    if ltb max_payload p.len || ltb cap (12 + p.len)
    then none
    else some (frame_start p ++ u8 (crc / 256) ∷ u8 crc ∷ [])

-- The packet as the library's record.
abbrev pub library_packet : SketchPacket → Packet.Packet
library_packet p = record {
  source = p.src;
  destination = p.dst;
  type = p.type;
  flags = p.flags;
  sequence = p.seq;
  length = p.len;
  payload = p.payload;
}

shift_bits-crc_bits : (bits crc : ℕ) → shift_bits bits crc ≡ crc_bits bits crc
unfolding shift_bits crc_bits crc_bit
shift_bits-crc_bits zero crc = refl
shift_bits-crc_bits (suc bits) crc = shift_bits-crc_bits bits _

shift_bytes-crc_bytes : (bytes : List ℕ) (crc : ℕ) → shift_bytes crc bytes ≡ crc_bytes crc bytes
unfolding shift_bytes crc_bytes crc_byte
shift_bytes-crc_bytes [] crc = refl
shift_bytes-crc_bytes (byte ∷ bytes) crc =
    rw (shift_bits-crc_bits 8 (u16 (bit_xor crc (byte * 256)))) (shift_bytes-crc_bytes bytes _)

pub crc16-library : (bytes : List ℕ) → crc16 bytes ≡ crc16_ccitt_false bytes
unfolding crc16 crc16_ccitt_false
crc16-library bytes = shift_bytes-crc_bytes bytes 0xFFFF

-- For every packet whose length is a byte and every capacity, the sketch encodes exactly when the library does, and
-- to the same bytes.
pub encode-library :
    (p : SketchPacket) (cap : ℕ)
    → p.len < 256
    → encode p cap ≡ encode_packet (library_packet p) (some cap)
unfolding encode encode_packet encoded_size frame_body write_u16_be frame_start
encode-library p cap h =
    let same : u8 p.len ≡ p.len = omega arith in
    rw (same, crc16-library (frame_start p)) (ground arith)
