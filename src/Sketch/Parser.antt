-- ===== src/Sketch/Parser.antt =====
-- esp32s3C/Protocol.h and esp32s3C/Protocol.cpp: the class `Parser`.
use motorcycle_computer.Base.{
  ℕ, ◌+◌, ◌*◌, Bool, true, false, ◌||◌, ◌&&◌, List, [], ◌∷◌, ◌++◌, replicate, take, drop, get_or,
  set, bit_or, u16, u32, ltb, leb, ◌==◌, ◌!=◌, if◌then◌else◌,
}
use motorcycle_computer.Sketch.Codec.{
  SketchPacket, blank, sync1, sync2, version, max_payload, max_frame, crc16,
}

-- `buffer` is the whole array, of which the first `used` bytes are the frame so far.
pub record Parser : Type 0 where
  pub buffer : List ℕ
  pub used : ℕ
  pub expected : ℕ
  pub rejected : ℕ

-- `Parser{}`.
abbrev pub fresh_parser : Parser
fresh_parser = record { buffer = replicate max_frame 0; used = 0; expected = 0; rejected = 0 }

abbrev pub reset : Parser → Parser
reset s = record s { used = 0; expected = 0 }

-- `++rejected_; reset();`
abbrev pub reject : Parser → Parser
reject s = record s { used = 0; expected = 0; rejected = u32 (s.rejected + 1) }

-- `buffer_[used_++] = b;`
abbrev pub append : Parser → ℕ → Parser
append s b = record s { buffer = set s.buffer s.used b; used = s.used + 1 }

-- Two bytes of the buffer as a number.
abbrev pub word_at : Parser → ℕ → ℕ
word_at s i = u16 (bit_or (get_or s.buffer i 0 * 256) (get_or s.buffer (i + 1) 0))

-- What a frame with the right checksum leaves in the packet.
unfoldable pub read_packet : Parser → SketchPacket → SketchPacket
read_packet s p =
    let len = get_or s.buffer 9 0 in
    record {
      src = get_or s.buffer 3 0;
      dst = get_or s.buffer 4 0;
      type = get_or s.buffer 5 0;
      flags = get_or s.buffer 6 0;
      seq = word_at s 7;
      len = len;
      payload = take len (drop 10 s.buffer) ++ drop len p.payload;
    }

-- `push` from the second test on `expected_`.
unfoldable pub push_frame : Parser → SketchPacket → Bool × Parser × SketchPacket
push_frame s p =
    let n = 10 + get_or s.buffer 9 0 in
    if s.expected != 0 && s.used == s.expected
    then (if crc16 (take n s.buffer) != word_at s n
        then (false, reject s, p)
        else (true, reset s, read_packet s p))
    else (false, s, p)

unfoldable pub push : Parser → ℕ → SketchPacket → Bool × Parser × SketchPacket
push s b p =
    let s' = append s b in
    let len = get_or s'.buffer 9 0 in
    if s.used == 0
    then (if b != sync1 then (false, s, p) else (false, s', p))
    else if s.used == 1
    then (if b != sync2
        then (false, if b == sync1 then append (reset s) b else reset s, p)
        else (false, s', p))
    else if leb max_frame s.used
    then (false, reject s, p)
    else if s'.used == 10
    then (if get_or s'.buffer 2 0 != version || ltb max_payload len
        then (false, reject s', p)
        else push_frame (record s' { expected = 12 + len }) p)
    else push_frame s' p

-- A run of bytes, each pushed with a fresh packet: the packets that come out.
unfoldable pub feed : Parser → List ℕ → List SketchPacket × Parser
feed s [] = ([], s)
feed s (b ∷ bytes) =
    let (got, s', p) = push s b blank in
    let (ps, s'') = feed s' bytes in (if got then p ∷ ps else ps, s'')
