-- ===== src/Node/Drain.antt =====
-- The loop `while (node_.poll(packet, now_ms))` that every controller's `service` runs, and why it
-- ends.
--
-- The loop has fuel: one more than the packets that are queued and the bytes that the transport
-- still has is enough.
use motorcycle_computer.Base.{
  ℕ, bit_or, zero, suc, ◌+◌, ◌≤◌, ◌<◌, ◌≡◌, true, false, refl, ap, ◌∙◌, arith, Bool, List, [], ◌∷◌,
  Option, Option-cases, some, none, inl, inr, length,
}
use motorcycle_computer.Protocol.Packet.{Packet, empty_packet, max_frame_size, flag_ack_required}
use motorcycle_computer.Protocol.Codec.{encode_packet}
use motorcycle_computer.StreamParser.{push}
use motorcycle_computer.Transport.{Transport}
use motorcycle_computer.Node.{
  BikeNode, poll, poll_bytes, receive, write_packet, send, stamp, send_stamped, send_ack,
  handle_control_packet, enqueue_rx, dequeue_rx, poll_chunk_size, service,
}

module _ {S X : Type 0} ⦃t : Transport S⦄ (node : X → BikeNode S) (put_node : X → BikeNode S → X)
    (handle : X → Packet → ℕ → X) where
  -- The loop, on an object that holds the node: `none` where the fuel runs out.
  unfoldable pub drain : ℕ → X → ℕ → Option X
  drain zero x now_ms = none
  drain (suc fuel) x now_ms =
      let (first, n) = poll (node x) now_ms in
      elim first [
        | none ↦ some (put_node x n)
        | some p ↦ drain fuel (handle (put_node x n) p now_ms) now_ms
      ]

module _ {S X : Type 0} ⦃t : Transport S⦄ (node : X → BikeNode S) (put_node : X → BikeNode S → X)
    (handle : X → Packet → ℕ → X) where
  -- The two ways of a round.
  pub drain_done :
      (fuel : ℕ) (x : X) (now_ms : ℕ)
      → (poll (node x) now_ms).0 ≡ none
      → drain node put_node handle (suc fuel) x now_ms ≡ some (put_node x (poll (node x) now_ms).1)
  unfolding drain
  drain_done fuel x now_ms q = rw (drain, q) refl

  pub drain_next :
      (fuel : ℕ) (x : X) (now_ms : ℕ) (p : Packet)
      → (poll (node x) now_ms).0 ≡ some p
      → drain node put_node handle (suc fuel) x now_ms
        ≡ drain node put_node handle fuel
            (handle (put_node x (poll (node x) now_ms).1) p now_ms)
            now_ms
  unfolding drain
  drain_next fuel x now_ms p q = rw (drain, q) refl

-- The loop ended, and the predicate holds of the result.
abbrev pub Ended : {X : Type 0} → (X → Type 0) → Option X → Type 0
Ended P none = ⊥
Ended P (some x) = P x

module _ {X : Type 0} where
  pub Ended-map : (P Q : X → Type 0) (o : Option X) → ((x : X) → P x → Q x) → Ended P o → Ended Q o
  Ended-map P Q none h e = e
  Ended-map P Q (some x) h e = h x e

module _ {X : Type 0} (P : X → Type 0) where
  pub Ended-none : (o : Option X) → o ≡ none → Ended P o → ⊥
  Ended-none none e h = h
  Ended-none (some x) e h = absurd (ground (arith, e))

  pub Ended-some : (o : Option X) (x : X) → o ≡ some x → Ended P o → P x
  Ended-some none x e h = absurd h
  Ended-some (some y) x e h = let same : y ≡ x = ground (arith, e) in rw (← same) h

-- What follows the loop, if it ended.
abbrev pub and_then : {X : Type 0} → Option X → (X → X) → Option X
and_then none f = none
and_then (some x) f = some (f x)

pub and_then-Ended :
    {X : Type 0} (P Q : X → Type 0) (o : Option X) (f : X → X)
    → ((x : X) → P x → Q (f x))
    → Ended P o
    → Ended Q (and_then o f)
and_then-Ended P Q none f h e = e
and_then-Ended P Q (some x) f h e = h x e

-- No bytes come in during the loop: `left` counts those that the transport still has.
pub record IsClosed {S : Type 0} (t : Transport S) (left : S → ℕ) : Type 0 where
  pub read_left :
      (s : S) (capacity : ℕ) → left (t.read s capacity).1 + length (t.read s capacity).0 ≤ left s
  pub write_left : (s : S) (frame : List ℕ) → left (t.write s frame).1 ≤ left s

-- The packets that are queued and the bytes that the transport still has.
abbrev pub load : {S : Type 0} → (S → ℕ) → BikeNode S → ℕ
load left n = n.rx_count + left n.transport

-- The node takes no packet, and the transport gets no bytes to read.
abbrev pub IsQuiet : {S : Type 0} → (S → ℕ) → BikeNode S → BikeNode S → Type 0
IsQuiet left n m = (m.rx_count ≡ n.rx_count) × (left m.transport ≤ left n.transport)

module _ {S : Type 0} ⦃t : Transport S⦄ (left : S → ℕ) (c : IsClosed t left) where
  write_packet-quiet : (n : BikeNode S) (p : Packet) → IsQuiet left n (write_packet n p).1
  unfolding write_packet
  write_packet-quiet n p = elim (Option-cases (encode_packet p (some max_frame_size))) [
    | inl q ↦ ground (arith, q)
    | inr (frame, q) ↦ ground (arith, q, c.write_left n.transport frame)
  ]

  pub send_ack-quiet :
      (n : BikeNode S) (destination sequence : ℕ) (nack : Bool)
      → IsQuiet left n (send_ack n destination sequence nack).1
  unfolding send_ack
  send_ack-quiet n destination sequence nack = write_packet-quiet n _

  stamp-quiet : (n : BikeNode S) (p : Packet) → IsQuiet left n (stamp n p).1
  unfolding stamp
  stamp-quiet n p = ground arith

  send_stamped-quiet :
      (n : BikeNode S) (p : Packet) (now_ms : ℕ) (require_ack : Bool)
      → IsQuiet left n (send_stamped n p now_ms require_ack).1
  unfolding send_stamped
  send_stamped-quiet n p now_ms false = write_packet-quiet n p
  send_stamped-quiet n p now_ms true =
      ground (arith, write_packet-quiet n (record p { flags = bit_or p.flags flag_ack_required }))

  pub send-quiet :
      (n : BikeNode S) (p : Packet) (now_ms : ℕ) (require_ack : Bool)
      → IsQuiet left n (send n p now_ms require_ack).1
  unfolding send
  send-quiet n p now_ms require_ack =
      let (q, n') = stamp n p in
      ground (arith, stamp-quiet n p, send_stamped-quiet n' q now_ms require_ack)

  receive-load : (n : BikeNode S) (p : Packet) → load left (receive n p) ≤ load left n + 1
  unfolding receive handle_control_packet enqueue_rx
  receive-load n p = ground (arith, send_ack-quiet n p.source p.sequence false)

  poll_bytes-load :
      (n : BikeNode S) (bytes : List ℕ)
      → load left (poll_bytes n bytes) ≤ load left n + length bytes
  unfolding poll_bytes
  poll_bytes-load n [] = omega arith
  poll_bytes-load n (byte ∷ bytes) =
      let (got, parser, p) = push n.parser byte empty_packet in
      let n' = record n { parser = parser } in
      ground
        (arith, receive-load n' p, poll_bytes-load n' bytes, poll_bytes-load (receive n' p) bytes)

  poll-none :
      (n : BikeNode S) (now_ms : ℕ) → (poll n now_ms).0 ≡ none → (poll n now_ms).1.rx_count ≡ 0
  unfolding poll dequeue_rx
  poll-none n now_ms h = ground (arith, h)

  -- Every packet that is taken lessens the load.
  pub poll-some :
      (n : BikeNode S) (now_ms : ℕ) (p : Packet)
      → (poll n now_ms).0 ≡ some p
      → load left (poll n now_ms).1 < load left n
  unfolding poll dequeue_rx
  poll-some n now_ms p h =
      let (chunk, tr) = t.read n.transport poll_chunk_size in
      ground
        (arith, h, c.read_left n.transport 64, poll_bytes-load (record n { transport = tr }) chunk)

  pub service-quiet : (n : BikeNode S) (now_ms : ℕ) → IsQuiet left n (service n now_ms)
  unfolding service
  service-quiet n now_ms = ground (arith, write_packet-quiet n n.pending.packet)

  module _ {X : Type 0} (node : X → BikeNode S) (put_node : X → BikeNode S → X)
      (handle : X → Packet → ℕ → X) (P : X → Type 0) where
    -- With one unit of fuel more than the load the loop ends, if a handler adds nothing to the load;
    -- the queue is empty then, an invariant of the handler
    -- holds, and more fuel changes nothing.
    pub drain-ends :
        (fuel more : ℕ) (x : X) (now_ms : ℕ)
        → ((y : X) (n : BikeNode S) → node (put_node y n) ≡ n)
        → ((y : X) (p : Packet) → load left (node (handle y p now_ms)) ≤ load left (node y))
        → ((y : X) (n : BikeNode S) → P y → P (put_node y n))
        → ((y : X) (p : Packet) → P y → P (handle y p now_ms))
        → P x
        → load left (node x) < fuel
        → Ended (λ y. ((node y).rx_count ≡ 0) × P y) (drain node put_node handle fuel x now_ms)
          × (drain node put_node handle (more + fuel) x now_ms
              ≡ drain node put_node handle fuel x now_ms)
    drain-ends zero more x now_ms put le kept handled v h = absurd (omega arith)
    drain-ends (suc fuel) more x now_ms put le kept handled v h =
        let n = (poll (node x) now_ms).1 in
        let shift : more + suc fuel ≡ suc (more + fuel) = omega arith in
        elim (Option-cases ((poll (node x) now_ms).0)) [
          | inl q ↦
              let queue =
                ap (λ (m : BikeNode S). m.rx_count) (put x n) ∙ poll-none (node x) now_ms q in
              rw
                (
                  drain_done node put_node handle fuel x now_ms q,
                  shift,
                  drain_done node put_node handle (more + fuel) x now_ms q,
                )
                ((queue, kept x n v), refl)
          | inr (p, q) ↦
              let y = handle (put_node x n) p now_ms in
              let less = poll-some (node x) now_ms p q in
              let same = ap (λ (m : BikeNode S). load left m) (put x n) in
              let added = le (put_node x n) p in
              rw
                (
                  drain_next node put_node handle fuel x now_ms p q,
                  shift,
                  drain_next node put_node handle (more + fuel) x now_ms p q,
                )
                (drain-ends fuel more y now_ms put le kept handled
                  (handled (put_node x n) p (kept x n v)) (omega arith))
        ]
