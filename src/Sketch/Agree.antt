-- ===== src/Sketch/Agree.antt =====
-- The parser of the sketch and that of the library.
use motorcycle_computer.Base.{
  ℕ, ◌+◌, ◌≤◌, ◌<◌, ◌≡◌, ◌⊎◌, ◌∙◌, refl, some, arith, Bool, true, not, ◌||◌, ◌&&◌, inl, inr, List,
  [], ◌∷◌, length, length-set, length-take, take, map, get_or, get_or-take, take-take,
  take-drop-take, get_or-set, ◌==◌, ◌!=◌, if◌then◌else◌,
}
use motorcycle_computer.Protocol.Packet.{Packet, empty_packet, ok, crc_mismatch}
use motorcycle_computer.Protocol.Codec.{decode_packet, fill_packet, read_u16_be}
use motorcycle_computer.StreamParser
use motorcycle_computer.StreamParser.{StreamParser, new_parser}
use motorcycle_computer.StreamParser.Inv.{IsValid, push-IsValid, new_parser-IsValid}
use motorcycle_computer.Sketch.Codec.{SketchPacket, blank, library_packet, crc16, crc16-library}
use motorcycle_computer.Sketch.Parser.{
  Parser, fresh_parser, push, push_frame, feed, append, word_at, read_packet,
}

-- The parser's state as the library's.
abbrev pub library_parser : Parser → StreamParser
library_parser s = record {
  buffer = s.buffer;
  length = s.used;
  expected = s.expected;
  rejected_frames = s.rejected;
}

-- The version byte is the only one, once it is there.
abbrev pub IsKnown : Parser → Type 0
IsKnown s = (s.used ≤ 2) ⊎ (get_or s.buffer 2 0 ≡ 1)

-- The frame in the buffer, complete up to its checksum.
module _ (s : Parser) (out : Packet) (size : length s.buffer ≡ 140)
    (fits : get_or s.buffer 9 0 ≤ 128) where
  abbrev len : ℕ
  len = get_or s.buffer 9 0

  abbrev frame : List ℕ
  frame = take (12 + len) s.buffer

  byte_at : (i : ℕ) → i < 12 + len → get_or frame i 0 ≡ get_or s.buffer i 0
  byte_at i h = get_or-take s.buffer (12 + len) i 0 h

  read_u16_be-frame : (i : ℕ) → i + 1 < 12 + len → read_u16_be frame i ≡ word_at s i
  unfolding read_u16_be
  read_u16_be-frame i h = rw (byte_at i (omega arith), byte_at (i + 1) h) refl

  fill_packet-frame :
      (p : SketchPacket)
      → out.payload ≡ p.payload
      → fill_packet frame len out ≡ library_packet (read_packet s p)
  unfolding fill_packet read_packet
  fill_packet-frame p e = ground (
    arith,
    e,
    byte_at 3 (omega arith),
    byte_at 4 (omega arith),
    byte_at 5 (omega arith),
    byte_at 6 (omega arith),
    read_u16_be-frame 7 (omega arith),
    take-drop-take 10 len (12 + len) s.buffer (omega arith),
  )

  decode_packet-frame :
      get_or s.buffer 0 0 ≡ 0xA5
      → get_or s.buffer 1 0 ≡ 0x5A
      → get_or s.buffer 2 0 ≡ 1
      → decode_packet (some frame) out ≡ (
          if crc16 (take (10 + len) s.buffer) != word_at s (10 + len)
          then (crc_mismatch, out)
          else (ok, fill_packet frame len out))
  unfolding decode_packet
  decode_packet-frame e0 e1 e2 = ground (
    arith,
    e0,
    e1,
    e2,
    fits,
    byte_at 0 (omega arith),
    byte_at 1 (omega arith),
    byte_at 2 (omega arith),
    byte_at 9 (omega arith),
    length-take (12 + len) s.buffer (omega (arith, size, fits)),
    read_u16_be-frame (10 + len) (omega arith),
    take-take (10 + len) (12 + len) s.buffer (omega arith),
    crc16-library (take (10 + len) s.buffer),
  )

-- A byte, with an output packet of the library of which only the payload agrees.
module _ (s : Parser) (b : ℕ) (p : SketchPacket) (out : Packet) (v : IsValid (library_parser s))
    (k : IsKnown s) (h : s.used ≡ 2 → b ≡ 1) (e : out.payload ≡ p.payload) where
  abbrev Agrees : Type 0
  Agrees =
      let (got, s', q) = push s b p in
      let (got', t, r) = StreamParser.push (library_parser s) b out in
      (got' ≡ got) × (t ≡ library_parser s') × (got ≡ true → r ≡ library_packet q) × IsKnown s'

  agrees-sync : s.used ≤ 1 → Agrees
  unfolding push StreamParser.push
  agrees-sync few = ground (arith, v.declared, few)

  agrees-header : 2 ≤ s.used → s.used + 1 < 10 → Agrees
  unfolding push push_frame StreamParser.push
  agrees-header many few =
      ground (arith, v.declared, v.buffer_size, k, h, get_or-set s.buffer s.used 2 b 0)

  agrees-declared : s.used + 1 ≡ 10 → Agrees
  unfolding push push_frame StreamParser.push
  agrees-declared ten =
      ground (arith, v.declared, v.buffer_size, k, get_or-set s.buffer s.used 2 b 0)

  agrees-payload : 10 ≤ s.used → Agrees
  unfolding push push_frame StreamParser.push
  agrees-payload many =
      let s' : Parser = append s b in
      let size : length s'.buffer ≡ 140 = length-set s.buffer s.used b ∙ v.buffer_size in
      let at : (i : ℕ) → i < 10 → get_or s'.buffer i 0 ≡ get_or s.buffer i 0 = λ i lt.
        ground (arith, many, lt, v.declared, v.buffer_size, get_or-set s.buffer s.used i b 0) in
      let fits : get_or s'.buffer 9 0 ≤ 128 = omega (arith, at 9, many, v.declared) in
      ground (
        arith,
        v.declared,
        k,
        at 2 (omega arith),
        at 9 (omega arith),
        decode_packet-frame s' out size fits (at 0 (omega arith) ∙ ground (arith, v.sync1))
            (at 1 (omega arith) ∙ ground (arith, v.sync2)) (at 2 (omega arith) ∙ ground (arith, k)),
        fill_packet-frame s' out size fits p e,
      )

  push-library : Agrees
  push-library =
      let cases : (s.used ≤ 1)
          ⊎ ((2 ≤ s.used) × (s.used + 1 < 10))
          ⊎ (s.used + 1 ≡ 10)
          ⊎ (10 ≤ s.used) =
        omega arith in
      elim cases [
        | inl few ↦ agrees-sync few
        | inr (inl few) ↦ agrees-header few.0 few.1
        | inr (inr (inl ten)) ↦ agrees-declared ten
        | inr (inr (inr many)) ↦ agrees-payload many
      ]

-- Wherever the parser has just found the two synchronisation bytes, the next byte is the version.
unfoldable pub known_versions : Parser → List ℕ → Bool
known_versions s [] = true
known_versions s (b ∷ bytes) =
    (not (s.used == 2) || b == 1) && known_versions (push s b blank).1 bytes

feed-agrees :
    (s : Parser) (bytes : List ℕ)
    → IsValid (library_parser s)
    → IsKnown s
    → known_versions s bytes ≡ true
    → StreamParser.feed (library_parser s) bytes
      ≡ (map library_packet (feed s bytes).0, library_parser (feed s bytes).1)
unfolding feed StreamParser.feed known_versions
feed-agrees s [] v k h = refl
feed-agrees s (b ∷ bytes) v k h =
    let s' = (push s b blank).1 in
    let step = push-library s b blank empty_packet v k (λ e. ground (arith, h, e)) refl in
    let v' : IsValid (library_parser s') =
      rw (← step.1) (push-IsValid (library_parser s) b empty_packet v) in
    ground (arith, h, step, feed-agrees s' bytes v' step.3)

-- On every run of bytes, from the start, in which the version byte follows wherever the parser has
-- just found the two synchronisation bytes, the sketch's parser finds the packets that the library's does, rejects as
-- many frames, and is left with the same buffer.
pub feed-library :
    (bytes : List ℕ)
    → known_versions fresh_parser bytes ≡ true
    → StreamParser.feed new_parser bytes
      ≡ (map library_packet (feed fresh_parser bytes).0, library_parser (feed fresh_parser bytes).1)
feed-library bytes h = feed-agrees fresh_parser bytes new_parser-IsValid (inl (omega arith)) h
