-- ===== src/Sketch/Answers.antt =====
-- What the sketch sends back to the link that a packet came in on.
use motorcycle_computer.Base.{
  ℕ, ◌≤◌, ◌≡◌, ◌≢◌, ◌⊎◌, refl, arith, not, ◌&&◌, ◌||◌, Bool-cases, inl, inr, List, [], ◌∷◌, length,
  All, none, get_or, bit_and, ◌==◌, ◌!=◌, if◌then◌else◌,
}
use motorcycle_computer.Arduino.{HardwareSerial}
use motorcycle_computer.Sketch.Codec.{
  SketchPacket, blank, heartbeat, discovery, diagnostic, get_state, ack, north, broadcast,
}
use motorcycle_computer.Sketch.Ports.{Ports, send}
use motorcycle_computer.Sketch.Route.{
  SketchRouter, port_of, diagnostic_packet, send_or_drop, reply, answer, local, route,
}
use motorcycle_computer.Sketch.Isolation.{
  SameLink, route-SameLink, send_or_count-SameLink, broadcast_from-SameLink,
}

-- An answer to a packet: it comes from the northbridge and is for the packet's source.
abbrev pub IsAnswer : SketchPacket → SketchPacket → Type 0
IsAnswer p q = (q.src ≡ north) × (q.dst ≡ p.src)

module _ {P : Type 0} ⦃hs : HardwareSerial P⦄ where
  -- The ports after packets were sent to one of them.
  unfoldable pub send_all : Ports P → ℕ → List SketchPacket → Ports P
  send_all ports port [] = ports
  send_all ports port (q ∷ qs) = send_all (send ports port q).1 port qs

  -- At most `most` answers were sent to the port, and nothing else was done.
  abbrev AreAnswered : ℕ → SketchPacket → ℕ → Ports P → Ports P → Type 0
  AreAnswered most p port ports ports' =
      (qs : List SketchPacket) × All (IsAnswer p) qs
      × (length qs ≤ most)
      × (ports' ≡ send_all ports port qs)

  reply-answers :
      (r : SketchRouter P) (port type seq : ℕ) (p : SketchPacket)
      → (q : SketchPacket) × IsAnswer p q
        × ((reply r port p.src type seq).ports ≡ (send r.ports port q).1)
  unfolding reply send_or_drop
  reply-answers r port type seq p =
      let q : SketchPacket = record blank {
        src = north;
        dst = p.src;
        type = type;
        flags = 0x02;
        seq = if seq != 0 then seq else r.sequence;
      } in
      (q, (refl, refl), ground arith)

  answer-answers :
      (r : SketchRouter P) (ingress : ℕ) (p : SketchPacket)
      → AreAnswered 1 p ingress r.ports (answer r ingress p).ports
  unfolding answer send_or_drop send_all diagnostic_packet
  answer-answers r ingress p =
      let (q, is_answer, sent) = reply-answers r ingress heartbeat 0 p in
      elim (Bool-cases (p.type == heartbeat)) [
        | inl y ↦ (q ∷ [], (is_answer, tt), omega arith, ground (arith, y, sent))
        | inr n ↦
            elim (Bool-cases
              (p.type != discovery && (p.type == diagnostic || p.type == get_state))) [
                | inl y ↦ (
                  diagnostic_packet r p ∷ [],
                  ((refl, refl), tt),
                  omega arith,
                  ground (arith, n, y),
                )
                | inr f ↦ ([], tt, omega arith, ground (arith, n, f))
              ]
      ]

  local-answers :
      (r : SketchRouter P) (ingress : ℕ) (p : SketchPacket)
      → AreAnswered 2 p ingress r.ports (local r ingress p).ports
  unfolding local send_all
  local-answers r ingress p =
      let (q, is_answer, sent) = reply-answers r ingress ack p.seq p in
      let replied = reply r ingress p.src ack p.seq in
      let (qs, are, le, sents) = answer-answers replied ingress p in
      let (qs', are', le', sents') = answer-answers r ingress p in
      elim (Bool-cases (bit_and p.flags 0x01 != 0)) [
        | inl y ↦ (q ∷ qs, (is_answer, are), omega (arith, le), ground (arith, y, sent, sents))
        | inr n ↦ (qs', are', omega (arith, le'), ground (arith, n, sents'))
      ]

  route-answers :
      (r : SketchRouter P) (ingress : ℕ) (p : SketchPacket)
      → (qs : List SketchPacket) × All (IsAnswer p) qs
        × (length qs ≤ 2)
        × (get_or (route r ingress p).ports.serial ingress none
            ≡ get_or (send_all r.ports ingress qs).serial ingress none)
  unfolding route send_all
  route-answers r ingress p =
      let told = local r ingress p in
      let (qs, are, le, sents) = local-answers r ingress p in
      elim (Bool-cases (
        not (p.src == north || p.src == broadcast)
        && (port_of p.src == ingress && (p.dst == north || p.dst == broadcast)))) [
          | inl y ↦
              (qs, are, le, ground (arith, y, sents, broadcast_from-SameLink told ingress p 0 3))
          | inr n ↦ (
            [],
            tt,
            omega arith,
            ground (arith, n, send_or_count-SameLink r (port_of p.dst) ingress p),
          )
        ]

  -- A packet reaches a link other than the one that it came in on only if it came in where its
  -- source is wired to, and is for all or for the node that is wired to that link; and it has an
  -- effect on the link that it came in on only if it came in where its source is wired to and is for
  -- the northbridge or for all. Every other link is as it was. What is sent to the link that it came
  -- in on is at most two packets, each from the northbridge itself and for the source of the packet.
  pub route-reaches :
      (r : SketchRouter P) (ingress : ℕ) (p : SketchPacket) (k : ℕ)
      → (SameLink k r (route r ingress p)
          ⊎ ((port_of p.src ≡ ingress)
              × (((k ≡ ingress) × ((p.dst ≡ north) ⊎ (p.dst ≡ broadcast)))
                  ⊎ ((k ≢ ingress) × ((p.dst ≡ broadcast) ⊎ (port_of p.dst ≡ k))))))
        × ((qs : List SketchPacket) × All (IsAnswer p) qs
            × (length qs ≤ 2)
            × (get_or (route r ingress p).ports.serial ingress none
                ≡ get_or (send_all r.ports ingress qs).serial ingress none))
  route-reaches r ingress p k = (route-SameLink r ingress p k, route-answers r ingress p)
