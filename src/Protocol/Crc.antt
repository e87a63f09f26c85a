-- ===== src/Protocol/Crc.antt =====
-- protocol/include/bike_protocol/crc16.hpp.
use motorcycle_computer.Base.{
  ℕ, zero, suc, ◌*◌, ◌<◌, ◌≡◌, refl, List, [], ◌∷◌, bit_and, bit_xor, arith, u16, ◌!=◌,
  if◌then◌else◌,
}

-- One round of the inner loop.
unfoldable pub crc_bit : ℕ → ℕ
crc_bit crc = if bit_and crc 0x8000 != 0 then u16 (bit_xor (crc * 2) 0x1021) else u16 (crc * 2)

-- The inner loop, with the rounds left.
unfoldable pub crc_bits : ℕ → ℕ → ℕ
crc_bits zero crc = crc
crc_bits (suc bit) crc = crc_bits bit (crc_bit crc)

-- One round of the outer loop.
unfoldable pub crc_byte : ℕ → ℕ → ℕ
unfolding crc_bits crc_bit
crc_byte crc byte = crc_bits 8 (u16 (bit_xor crc (byte * 256)))

-- The outer loop over the bytes left.
unfoldable pub crc_bytes : ℕ → List ℕ → ℕ
unfolding crc_byte
crc_bytes crc [] = crc
crc_bytes crc (byte ∷ bytes) = crc_bytes (crc_byte crc byte) bytes

unfoldable pub crc16_ccitt_false : List ℕ → ℕ
unfolding crc_bytes
crc16_ccitt_false bytes = crc_bytes 0xFFFF bytes

crc_bit-lt : (crc : ℕ) → crc_bit crc < 65536
unfolding crc_bit
crc_bit-lt crc = ground arith

crc_byte-lt : (crc byte : ℕ) → crc_byte crc byte < 65536
unfolding crc_byte
crc_byte-lt crc byte = crc_bit-lt _

pub crc_bytes-lt : (crc : ℕ) (bytes : List ℕ) → crc < 65536 → crc_bytes crc bytes < 65536
unfolding crc_bytes
crc_bytes-lt crc [] h = h
crc_bytes-lt crc (byte ∷ bytes) h = crc_bytes-lt (crc_byte crc byte) bytes (crc_byte-lt crc byte)

pub crc16_ccitt_false-lt : (bytes : List ℕ) → crc16_ccitt_false bytes < 65536
unfolding crc16_ccitt_false
crc16_ccitt_false-lt bytes = crc_bytes-lt 0xFFFF bytes (omega arith)

crc_check :
    crc16_ccitt_false (0x31 ∷ 0x32 ∷ 0x33 ∷ 0x34 ∷ 0x35 ∷ 0x36 ∷ 0x37 ∷ 0x38 ∷ 0x39 ∷ []) ≡ 0x29B1
unfolding crc16_ccitt_false
crc_check = refl
