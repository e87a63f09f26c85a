-- ===== src/StreamParser/Rate.antt =====
-- How many packets a run of bytes can hold.
use motorcycle_computer.Base.{
  ℕ, ◌+◌, ◌*◌, ◌≤◌, arith, List, [], ◌∷◌, length, get_or-set, if◌then◌else◌, min,
}
use motorcycle_computer.Protocol.Packet.{empty_packet}
use motorcycle_computer.StreamParser.{StreamParser, push, feed}
use motorcycle_computer.StreamParser.Inv.{IsValid, push-IsValid}

-- Bytes towards the least size of a frame.
abbrev pub credit : StreamParser → ℕ
credit s = min s.length 11

push-credit :
    (s : StreamParser) (byte : ℕ)
    → IsValid s
    → (if (push s byte empty_packet).0 then 12 else 0) + credit (push s byte empty_packet).1
      ≤ credit s + 1
unfolding push
push-credit s byte v = ground (arith, get_or-set s.buffer s.length 9 byte 0)

-- Each packet takes twelve bytes, some of which the parser may hold beforehand.
pub feed-credit :
    (s : StreamParser) (bytes : List ℕ)
    → IsValid s
    → 12 * length (feed s bytes).0 + credit (feed s bytes).1 ≤ credit s + length bytes
unfolding feed
feed-credit s [] v = omega arith
feed-credit s (byte ∷ bytes) v = ground (
  arith,
  push-credit s byte v,
  feed-credit (push s byte empty_packet).1 bytes (push-IsValid s byte empty_packet v),
)

-- A chunk of 64 bytes completes at most six packets.
pub feed-chunk :
    (s : StreamParser) (bytes : List ℕ)
    → IsValid s
    → length bytes ≤ 64
    → length (feed s bytes).0 ≤ 6
feed-chunk s bytes v h = omega (arith, feed-credit s bytes v)
