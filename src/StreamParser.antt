-- ===== src/StreamParser.antt =====
-- library/include/bike/stream_parser.hpp and library/src/stream_parser.cpp: frames out of a stream
-- of bytes.
pub mod Inv
pub mod Frames
pub mod Stream
pub mod Rate
mod Tests
use motorcycle_computer.Base.{
  ℕ, ◌+◌, Bool, true, false, ◌&&◌, some, List, [], ◌∷◌, take, set, get_or, replicate, ltb, leb, u32,
  ◌==◌, ◌!=◌, if◌then◌else◌,
}
use motorcycle_computer.Protocol.Packet.{
  Packet, empty_packet, DecodeStatus, ok, sync_byte1, sync_byte2, max_payload_size, header_size,
  crc_size, max_frame_size,
}
use motorcycle_computer.Protocol.Codec.{decode_packet}

-- `buffer` is the whole array, of which the first `length` bytes are the frame so far.
pub record StreamParser : Type 0 where
  pub buffer : List ℕ
  pub length : ℕ
  pub expected : ℕ
  pub rejected_frames : ℕ

-- `StreamParser{}`.
abbrev pub new_parser : StreamParser
new_parser = record {
  buffer = replicate max_frame_size 0;
  length = 0;
  expected = 0;
  rejected_frames = 0;
}

pub reset : StreamParser → StreamParser
reset s = record s { length = 0; expected = 0 }

-- `++rejected_frames_; reset();`
pub reject : StreamParser → StreamParser
unfolding reset
reject s = reset (record s { rejected_frames = u32 (s.rejected_frames + 1) })

-- `buffer_[length_++] = byte;`
pub store : StreamParser → ℕ → StreamParser
store s byte = record s { buffer = set s.buffer s.length byte; length = s.length + 1 }

-- What a call returns, the new parser, and what it leaves in `out_packet`.
abbrev pub Pushed : Type 0
Pushed = Bool × StreamParser × Packet

-- The end of `push` for a decoder's answer.
pub finish : StreamParser → DecodeStatus × Packet → Pushed
unfolding reset reject
finish s (ok, p) = (true, reset s, p)
finish s (status, p) = (false, reject s, p)

-- `push` from the second test on `expected_`.
pub push_complete : StreamParser → Packet → Pushed
unfolding finish
push_complete s out_packet =
    if s.expected != 0 && s.length == s.expected
    then finish s (decode_packet (some (take s.length s.buffer)) out_packet)
    else (false, s, out_packet)

-- `push` from the test for the end of the header on.
pub push_header : StreamParser → Packet → Pushed
unfolding reject push_complete
push_header s out_packet =
    let payload_length = get_or s.buffer 9 0 in
    if s.length == header_size
    then (if ltb max_payload_size payload_length
        then (false, reject s, out_packet)
        else push_complete (record s { expected = header_size + payload_length + crc_size })
            out_packet)
    else push_complete s out_packet

unfoldable pub push : StreamParser → ℕ → Packet → Pushed
unfolding reset reject store push_header
push s byte out_packet =
    if s.length == 0
    then (if byte != sync_byte1 then (false, s, out_packet) else (false, store s byte, out_packet))
    else if s.length == 1
    then (if byte != sync_byte2
        then (if byte == sync_byte1
            then (false, record s { length = 1; buffer = set s.buffer 0 byte }, out_packet)
            else (false, record s { length = 0 }, out_packet))
        else (false, store s byte, out_packet))
    else if leb max_frame_size s.length
    then (false, reject s, out_packet)
    else push_header (store s byte) out_packet

-- A run of bytes, each pushed with a fresh packet, as the readers of a transport do: the packets
-- that come out.
unfoldable pub feed : StreamParser → List ℕ → List Packet × StreamParser
feed s [] = ([], s)
feed s (byte ∷ bytes) =
    let (got, s', p) = push s byte empty_packet in
    let (ps, s'') = feed s' bytes in (if got then p ∷ ps else ps, s'')
