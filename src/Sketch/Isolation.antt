-- ===== src/Sketch/Isolation.antt =====
-- Which links a packet reaches at the sketch.
use motorcycle_computer.Base.{
  ℕ, zero, suc, ◌+◌, ◌≤◌, ◌<◌, ◌≡◌, ◌≢◌, ◌⊎◌, ◌∙◌, refl, sym, arith, Option, Option-cases, some,
  none, inl, inr, List, [], ◌∷◌, length, get_or, get_or-set_ne, get_or-set_self, ◌==◌,
  if◌then◌else◌, u32,
}
use motorcycle_computer.Arduino.{HardwareSerial}
use motorcycle_computer.Sketch.Codec.{
  SketchPacket, library_packet, max_frame, blank, heartbeat, ack, encode, encode-library, north,
  broadcast,
}
use motorcycle_computer.Protocol.Codec.{encode_packet}
use motorcycle_computer.Sketch.Ports.{Ports, port_count, serial_at, send, send_frame}
use motorcycle_computer.Sketch.Route.{
  SketchRouter, port_of, next_sequence, diagnostic_packet, send_or_drop, send_or_count, reply,
  answer, local, broadcast_from, route,
}

module _ {P : Type 0} where
  -- The link of a port is as it was.
  abbrev pub SameLink : ℕ → SketchRouter P → SketchRouter P → Type 0
  SameLink k r r' = get_or r'.ports.serial k none ≡ get_or r.ports.serial k none

get_or-lt :
    {A : Type 0} (xs : List (Option A)) (i : ℕ) (v : A) → get_or xs i none ≡ some v → i < length xs
get_or-lt [] i v h = absurd (ground (arith, h))
get_or-lt (x ∷ xs) zero v h = omega arith
get_or-lt (x ∷ xs) (suc i) v h = omega (arith, get_or-lt xs i v h)

module _ {P : Type 0} ⦃hs : HardwareSerial P⦄ where
  send-SameLink :
      (ports : Ports P) (port k : ℕ) (p : SketchPacket)
      → k ≢ port
      → get_or (send ports port p).1.serial k none ≡ get_or ports.serial k none
  unfolding send send_frame
  send-SameLink ports port k p ne = elim (Option-cases (serial_at ports port)) [
    | inl n ↦ ground (arith, n)
    | inr (serial, q) ↦ elim (Option-cases (encode p 140)) [
      | inl n ↦ ground (arith, q, n)
      | inr (frame, e) ↦ ground (
        arith,
        q,
        e,
        get_or-set_ne ports.serial {i = port} {j = k} (some (hs.write serial frame).1) none
            (λ eq. ne (sym eq)),
      )
    ]
  ]

  send_or_drop-SameLink :
      (r : SketchRouter P) (port k : ℕ) (p : SketchPacket)
      → k ≢ port
      → SameLink k r (send_or_drop r port p)
  unfolding send_or_drop
  send_or_drop-SameLink r port k p ne = ground (arith, send-SameLink r.ports port k p ne)

  pub send_or_count-SameLink :
      (r : SketchRouter P) (port k : ℕ) (p : SketchPacket)
      → k ≢ port
      → SameLink k r (send_or_count r port p)
  unfolding send_or_count
  send_or_count-SameLink r port k p ne = ground (arith, send-SameLink r.ports port k p ne)

  reply-SameLink :
      (r : SketchRouter P) (port dst type seq k : ℕ)
      → k ≢ port
      → SameLink k r (reply r port dst type seq)
  unfolding reply
  reply-SameLink r port dst type seq k ne =
      let p : SketchPacket = record blank { src = north; dst = dst; type = type; flags = 0x02 } in
      ground (
        arith,
        send_or_drop-SameLink r port k (record p { seq = seq }) ne,
        send_or_drop-SameLink (next_sequence r) port k (record p { seq = r.sequence }) ne,
      )

  answer-SameLink :
      (r : SketchRouter P) (ingress k : ℕ) (p : SketchPacket)
      → k ≢ ingress
      → SameLink k r (answer r ingress p)
  unfolding answer
  answer-SameLink r ingress k p ne = ground (
    arith,
    reply-SameLink r ingress p.src heartbeat 0 k ne,
    send_or_drop-SameLink (next_sequence r) ingress k (diagnostic_packet r p) ne,
  )

  local-SameLink :
      (r : SketchRouter P) (ingress k : ℕ) (p : SketchPacket)
      → k ≢ ingress
      → SameLink k r (local r ingress p)
  unfolding local
  local-SameLink r ingress k p ne =
      let replied = reply r ingress p.src ack p.seq in
      ground (
        arith,
        reply-SameLink r ingress p.src ack p.seq k ne,
        answer-SameLink r ingress k p ne,
        answer-SameLink replied ingress k p ne,
      )

  -- The broadcast does not go back to where it came from.
  pub broadcast_from-SameLink :
      (r : SketchRouter P) (ingress : ℕ) (p : SketchPacket) (i count : ℕ)
      → SameLink ingress r (broadcast_from r ingress p i count)
  unfolding broadcast_from
  broadcast_from-SameLink r ingress p i zero = refl
  broadcast_from-SameLink r ingress p i (suc count) = ground (
    arith,
    send_or_count-SameLink r i ingress p,
    broadcast_from-SameLink r ingress p (i + 1) count,
    broadcast_from-SameLink (send_or_count r i p) ingress p (i + 1) count,
  )

  pub route-SameLink :
      (r : SketchRouter P) (ingress : ℕ) (p : SketchPacket) (k : ℕ)
      → SameLink k r (route r ingress p)
        ⊎ ((port_of p.src ≡ ingress)
            × (((k ≡ ingress) × ((p.dst ≡ north) ⊎ (p.dst ≡ broadcast)))
                ⊎ ((k ≢ ingress) × ((p.dst ≡ broadcast) ⊎ (port_of p.dst ≡ k)))))
  unfolding route
  route-SameLink r ingress p k =
      ground (arith, local-SameLink r ingress k p, send_or_count-SameLink r (port_of p.dst) k p)

  -- Over a link with room for its frame, a packet that came in where its source is wired to, and is
  -- for the node that is wired to another link, goes out there once, as the library encodes it, and
  -- counts as forwarded when the link took the whole frame and as dropped otherwise.
  pub route-delivers :
      (r : SketchRouter P) (ingress : ℕ) (p : SketchPacket) (serial : P) (frame : List ℕ)
      → ingress < port_count
      → port_of p.src ≡ ingress
      → port_of p.dst ≢ ingress
      → serial_at r.ports (port_of p.dst) ≡ some serial
      → p.len < 256
      → encode_packet (library_packet p) (some max_frame) ≡ some frame
      → length frame ≤ hs.available_for_write serial
      → let r' = route r ingress p in
        let (written, serial') = hs.write serial frame in
        (serial_at r'.ports (port_of p.dst) ≡ some serial')
        × (r'.forwarded ≡ (if written == length frame then u32 (r.forwarded + 1) else r.forwarded))
        × (r'.dropped ≡ (if written == length frame then r.dropped else u32 (r.dropped + 1)))
  unfolding route send_or_count send send_frame
  route-delivers r ingress p serial frame wired src dst at l e room =
      let target = port_of p.dst in
      let serial' = (hs.write serial frame).1 in
      let lt : target < port_count = ground (arith, at) in
      let encoded : encode p max_frame ≡ some frame = encode-library p max_frame l ∙ e in
      ground (
        arith,
        wired,
        src,
        dst,
        at,
        lt,
        encoded,
        room,
        get_or-set_self r.ports.serial target (some serial') none
            (get_or-lt r.ports.serial target serial (ground (arith, at))),
      )
