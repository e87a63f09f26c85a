-- ===== src/StreamParser/Frames.antt =====
-- What comes out of a stream of frames.
use native.Mathlib.Numerals.{add-one}
use motorcycle_computer.Base.{
  ℕ, ◌+◌, ◌≤◌, ◌<◌, ◌≡◌, ◌⊎◌, sym, ap, ◌∙◌, arith, List, [], ◌∷◌, ◌++◌, some, length, get_or, set,
  take, length-set, get_or-set, take-set_next, get_or-take, get_or-append_left, length-take,
  length-append, append_assoc, append-nil, false, true,
}
use motorcycle_computer.Protocol.Packet.{Packet, ok, empty_packet, max_payload_size, header_size}
use motorcycle_computer.Protocol.Codec.{decode_packet, fill_packet}
use motorcycle_computer.Protocol.Codec.RoundTrip.{IsFrame, decode_packet_of_IsFrame}
use motorcycle_computer.StreamParser.{StreamParser, push, feed}
use motorcycle_computer.StreamParser.Inv.{IsValid, IsIdle, push-IsValid}

module _ (s : StreamParser) (byte : ℕ) (v : IsValid s) (synced : 2 ≤ s.length) where
  -- The size that the frame declares, if the header is complete with this byte.
  abbrev declared : ℕ
  declared = get_or (set s.buffer s.length byte) 9 0

  push-more :
      (s.length + 1 < header_size)
        ⊎ ((declared ≤ max_payload_size) × (s.length + 1 < 12 + declared))
      → ((push s byte empty_packet).0 ≡ false)
        × ((push s byte empty_packet).1.buffer ≡ set s.buffer s.length byte)
        × ((push s byte empty_packet).1.length ≡ s.length + 1)
        × ((push s byte empty_packet).1.rejected_frames ≡ s.rejected_frames)
  unfolding push
  push-more h = ground (arith, get_or-set s.buffer s.length 9 byte 0, v.buffer_size)

  push-last :
      declared ≤ max_payload_size
      → s.length + 1 ≡ 12 + declared
      → let frame = take (s.length + 1) (set s.buffer s.length byte) in
        (p : Packet)
        → decode_packet (some frame) empty_packet ≡ (ok, p)
        → ((push s byte empty_packet).0 ≡ true)
          × ((push s byte empty_packet).2 ≡ p)
          × IsIdle (push s byte empty_packet).1
          × ((push s byte empty_packet).1.rejected_frames ≡ s.rejected_frames)
  unfolding push
  push-last fits last p h = ground (arith, get_or-set s.buffer s.length 9 byte 0, v.buffer_size)

feed_of_more :
    (s : StreamParser) (byte : ℕ) (rest : List ℕ)
    → (push s byte empty_packet).0 ≡ false
    → feed s (byte ∷ rest) ≡ feed (push s byte empty_packet).1 rest
unfolding feed
feed_of_more s byte rest h = ground arith

feed_of_last :
    (s : StreamParser) (byte : ℕ)
    → (push s byte empty_packet).0 ≡ true
    → feed s (byte ∷ []) ≡ ((push s byte empty_packet).2 ∷ [], (push s byte empty_packet).1)
unfolding feed
feed_of_last s byte h = ground arith

abbrev rejected_after : StreamParser → List ℕ → ℕ
rejected_after s bytes = (feed s bytes).1.rejected_frames

-- The bytes left of a frame of which the parser holds the rest.
module _ (frame : List ℕ) (n : ℕ) (f : IsFrame frame n) where
  holds-next :
      (s : StreamParser) (byte : ℕ) (rest : List ℕ)
      → IsValid s
      → frame ≡ take s.length s.buffer ++ byte ∷ rest
      → frame ≡ take (s.length + 1) (set s.buffer s.length byte) ++ rest
  holds-next s byte rest v e = rw add-one (
      rw (take-set_next s.buffer s.length byte (omega (arith, v.buffer_size, v.declared, f.fits)))
        (e ∙ sym (append_assoc (take s.length s.buffer) (byte ∷ []) rest)))

  length-held :
      (s : StreamParser) (byte : ℕ) (rest : List ℕ)
      → IsValid s
      → frame ≡ take s.length s.buffer ++ byte ∷ rest
      → length frame ≡ s.length + 1 + length rest
  length-held s byte rest v e = omega (
    arith,
    ap length e,
    length-append (take s.length s.buffer) (byte ∷ rest),
    length-take s.length s.buffer (omega (arith, v.buffer_size, v.declared)),
  )

  declared-held :
      (s : StreamParser) (byte : ℕ) (rest : List ℕ)
      → IsValid s
      → frame ≡ take s.length s.buffer ++ byte ∷ rest
      → header_size ≤ s.length + 1
      → get_or (set s.buffer s.length byte) 9 0 ≡ n
  declared-held s byte rest v e long =
      sym (get_or-take (set s.buffer s.length byte) (s.length + 1) 9 0 (omega arith))
      ∙ sym (get_or-append_left held rest 9 0 size)
      ∙ ap (λ t. get_or t 9 0) (sym (holds-next s byte rest v e))
      ∙ f.declared
    where
      held : List ℕ
      held = take (s.length + 1) (set s.buffer s.length byte)

      size : 9 < length held
      size = omega (
        arith,
        v.buffer_size,
        v.declared,
        length-set s.buffer s.length byte,
        length-take (s.length + 1) (set s.buffer s.length byte)
            (omega (arith, v.buffer_size, v.declared, length-set s.buffer s.length byte)),
      )

  pub feed-rest :
      (s : StreamParser) (byte : ℕ) (rest : List ℕ)
      → IsValid s
      → 2 ≤ s.length
      → frame ≡ take s.length s.buffer ++ byte ∷ rest
      → ((feed s (byte ∷ rest)).0 ≡ fill_packet frame n empty_packet ∷ [])
        × IsIdle (feed s (byte ∷ rest)).1
        × (rejected_after s (byte ∷ rest) ≡ s.rejected_frames)
  feed-rest s byte [] v synced e =
      let held : frame ≡ take (s.length + 1) (set s.buffer s.length byte) =
        holds-next s byte [] v e ∙ append-nil _ in
      ground (
        arith,
        f.size,
        f.fits,
        length-held s byte [] v e,
        declared-held s byte [] v e,
        feed_of_last s byte,
        push-last s byte v synced
            (omega (arith, f.size, f.fits, length-held s byte [] v e, declared-held s byte [] v e))
            (omega (arith, f.size, length-held s byte [] v e, declared-held s byte [] v e))
            (fill_packet frame n empty_packet)
            (rw (← held) (decode_packet_of_IsFrame frame n empty_packet f)),
      )
  feed-rest s byte (b ∷ rest) v synced e = ground (
    arith,
    feed_of_more s byte (b ∷ rest) more.0,
    more,
    feed-rest (push s byte empty_packet).1 b rest (push-IsValid s byte empty_packet v)
        (omega (arith, more.2)) (rw (more.1, more.2) (holds-next s byte (b ∷ rest) v e)),
  )
    where
      room :
          (s.length + 1 < header_size)
          ⊎ ((declared s byte v synced ≤ max_payload_size)
              × (s.length + 1 < 12 + declared s byte v synced))
      room = ground (
        arith,
        f.size,
        f.fits,
        length-held s byte (b ∷ rest) v e,
        declared-held s byte (b ∷ rest) v e,
      )

      more :
          ((push s byte empty_packet).0 ≡ false)
          × ((push s byte empty_packet).1.buffer ≡ set s.buffer s.length byte)
          × ((push s byte empty_packet).1.length ≡ s.length + 1)
          × ((push s byte empty_packet).1.rejected_frames ≡ s.rejected_frames)
      more = push-more s byte v synced room
