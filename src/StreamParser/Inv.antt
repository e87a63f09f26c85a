-- ===== src/StreamParser/Inv.antt =====
-- The parser's buffer: what it holds, and that no write leaves it.
use motorcycle_computer.Base.{
  ℕ, ◌+◌, ◌≤◌, ◌<◌, ◌≡◌, ◌⊎◌, arith, length, get_or, length-set, get_or-set,
}
use motorcycle_computer.Protocol.Packet.{
  Packet, DecodeStatus, sync_byte1, sync_byte2, max_payload_size, max_frame_size, header_size,
}
use motorcycle_computer.StreamParser.{StreamParser, new_parser, push, finish}

-- Between two calls: the buffer keeps its size, the bytes so far begin as a frame does, and from
-- the end of the header on `expected` is the size that the header declares and is not reached.
pub record IsValid (s : StreamParser) : Type 0 where
  pub buffer_size : length s.buffer ≡ max_frame_size
  pub sync1 : (s.length ≡ 0) ⊎ (get_or s.buffer 0 0 ≡ sync_byte1)
  pub sync2 : (s.length ≤ 1) ⊎ (get_or s.buffer 1 0 ≡ sync_byte2)
  pub declared :
      ((s.length < header_size) × (s.expected ≡ 0))
      ⊎ ((header_size ≤ s.length)
          × (s.length < s.expected)
          × (s.expected ≡ 12 + get_or s.buffer 9 0)
          × (get_or s.buffer 9 0 ≤ max_payload_size))

pub new_parser-IsValid : IsValid new_parser
new_parser-IsValid = omega arith

-- A parser between two frames.
abbrev pub IsIdle : StreamParser → Type 0
IsIdle s = (s.length ≡ 0) × (s.expected ≡ 0)

finish-IsValid :
    (s : StreamParser) (r : DecodeStatus × Packet)
    → length s.buffer ≡ max_frame_size
    → IsValid (finish s r).1 × IsIdle (finish s r).1
unfolding finish
finish-IsValid s r h = ground arith

module _ (s : StreamParser) (byte : ℕ) (out : Packet) (v : IsValid s) where
  -- Every byte keeps the invariant.
  pub push-IsValid : IsValid (push s byte out).1
  unfolding push
  push-IsValid = ground (
    arith,
    length-set s.buffer s.length byte,
    length-set s.buffer 0 byte,
    get_or-set s.buffer s.length 0 byte 0,
    get_or-set s.buffer s.length 1 byte 0,
    get_or-set s.buffer s.length 9 byte 0,
    get_or-set s.buffer 0 0 byte 0,
  )
