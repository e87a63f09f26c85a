-- ===== src/Node/Retry.antt =====
-- The packet that waits for its acknowledgement.
use motorcycle_computer.Base.{
  ℕ, zero, suc, ◌+◌, ◌≤◌, ◌<◌, ◌≡◌, ◌≢◌, ◌⊎◌, ◌↔◌, inl, inr, refl, ap, ◌∙◌, arith, List, [], ◌∷◌,
  true, false, Option-cases, some, length, u32, elapsed, bit_or,
}
use motorcycle_computer.Base.Bits.{bit_and-one, bit_or-one}
use motorcycle_computer.Protocol.Packet.{Packet, flag_ack_required}
use motorcycle_computer.Protocol.Packet.MessageType
use motorcycle_computer.Transport.{Transport, IsReliable}
use motorcycle_computer.Protocol.Codec.{encode_packet}
use motorcycle_computer.Node.{
  BikeNode, write_packet, stamp, send, handle_control_packet, service, wants_ack,
}
use motorcycle_computer.Node.Poll.{write_packet-only}

wants_ack-required :
    (p : Packet) → wants_ack (record p { flags = bit_or p.flags flag_ack_required }) ≡ true
unfolding wants_ack
wants_ack-required p =
    ground (arith, bit_and-one (bit_or p.flags flag_ack_required), bit_or-one p.flags)

module _ {S : Type 0} where
  -- The counter of sequence numbers skips zero.
  abbrev pub HasSequence : BikeNode S → Type 0
  HasSequence n = (1 ≤ n.sequence) × (n.sequence < 65536)

  -- A packet that arrives ends the wait exactly when it is an acknowledgement, from the node that
  -- the waiting packet went to, with its sequence number. A negative one only resets the time of
  -- sending, and nothing else of the node changes.
  pub handle_control_packet-active :
      (n : BikeNode S) (p : Packet)
      → let m = handle_control_packet n p in
        ((m.pending.active ≡ true) ↔ (
          (n.pending.active ≡ true)
          × ¬ (
              (p.type ≡ MessageType.ack)
              × (p.sequence ≡ n.pending.packet.sequence)
              × (p.source ≡ n.pending.packet.destination))))
        × (m.pending.packet ≡ n.pending.packet)
        × (m.pending.retries ≡ n.pending.retries)
        × (m.tx_failures ≡ n.tx_failures)
  unfolding handle_control_packet
  handle_control_packet-active n p = ground arith

module _ {S : Type 0} ⦃t : Transport S⦄ where
  -- A stamped packet has a sequence number other than zero, and so has the next one.
  stamp-HasSequence :
      (n : BikeNode S) (p : Packet)
      → HasSequence n
      → ((stamp n p).0.sequence ≢ 0) × HasSequence (stamp n p).1
  unfolding stamp
  stamp-HasSequence n p h = ground arith

  stamp-only :
      (n : BikeNode S) (p : Packet)
      → ((stamp n p).1 ≡ record n { sequence = (stamp n p).1.sequence })
        × ((stamp n p).0 ≡ record p { source = n.address; sequence = (stamp n p).0.sequence })
  unfolding stamp
  stamp-only n p = ground arith

  -- A call of `send` that asks for an acknowledgement either fails, and nothing of what waits
  -- changes, or no packet waited before, and this one waits from now on, with this node as its
  -- source, a sequence number other than zero, the flag set and no retry made. The counter of
  -- sequence numbers stays within its range.
  pub send-pending :
      (n : BikeNode S) (p : Packet) (now_ms : ℕ)
      → HasSequence n
      → let (sent, m) = send n p now_ms true in
        HasSequence m
        × (((sent ≡ false) × (m.pending ≡ n.pending))
            ⊎ ((sent ≡ true)
                × (n.pending.active ≡ false)
                × (m.pending.active ≡ true)
                × (m.pending.sent_at_ms ≡ now_ms)
                × (m.pending.retries ≡ 0)
                × (m.pending.packet.source ≡ n.address)
                × (m.pending.packet.destination ≡ p.destination)
                × (m.pending.packet.sequence ≢ 0)
                × (wants_ack m.pending.packet ≡ true)))
  unfolding send
  send-pending n p now_ms h =
      let (q, n') = stamp n p in
      let r = record q { flags = bit_or q.flags flag_ack_required } in
      ground (
        arith,
        stamp-HasSequence n p h,
        stamp-only n p,
        write_packet-only n' r,
        wants_ack-required q,
      )

  -- The waiting packet's clock has run out at each of the times.
  abbrev pub AllExpired : BikeNode S → List ℕ → Type 0
  AllExpired n [] = Unit {0}
  AllExpired n (now_ms ∷ times) =
      (n.ack_timeout_ms ≤ elapsed now_ms n.pending.sent_at_ms) × AllExpired (service n now_ms) times

  pub service_all : BikeNode S → List ℕ → BikeNode S
  service_all n [] = n
  service_all n (now_ms ∷ times) = service_all (service n now_ms) times

  service-retry :
      (n : BikeNode S) (now_ms : ℕ) (frame : List ℕ)
      → IsReliable t
      → encode_packet n.pending.packet (some 140) ≡ some frame
      → n.pending.active ≡ true
      → n.ack_timeout_ms ≤ elapsed now_ms n.pending.sent_at_ms
      → n.pending.retries < n.max_retries
      → n.max_retries < 256
      → service n now_ms ≡ record n {
        transport = (t.write n.transport frame).1;
        pending = record (n.pending) { retries = n.pending.retries + 1; sent_at_ms = now_ms };
      }
  unfolding service write_packet
  service-retry n now_ms frame r e on late h w = ground (arith, e, r.write_true n.transport frame)

  service-give_up :
      (n : BikeNode S) (now_ms : ℕ)
      → n.pending.active ≡ true
      → n.ack_timeout_ms ≤ elapsed now_ms n.pending.sent_at_ms
      → n.max_retries ≤ n.pending.retries
      → service n now_ms ≡ record n {
        pending = record (n.pending) { active = false };
        tx_failures = u32 (n.tx_failures + 1);
      }
  unfolding service
  service-give_up n now_ms on late h = ground arith

  -- The transport after the frame has been written to it some times.
  abbrev pub resent : S → List ℕ → ℕ → S
  resent tr frame zero = tr
  resent tr frame (suc k) = resent (t.write tr frame).1 frame k

  -- With a transport that sends, a packet that waits for an acknowledgement that never comes is
  -- sent again on each timeout while retries are left; at the next timeout the node gives up,
  -- waits no more and counts one failure. So the wait ends after the retries left and one timeout
  -- more, whatever the times are.
  pub service_all-gives_up :
      (n : BikeNode S) (times : List ℕ) (k : ℕ) (frame : List ℕ)
      → IsReliable t
      → encode_packet n.pending.packet (some 140) ≡ some frame
      → n.pending.active ≡ true
      → n.max_retries < 256
      → n.pending.retries + k ≡ n.max_retries
      → length times ≡ k + 1
      → AllExpired n times
      → let m = service_all n times in
        (m.pending.active ≡ false)
        × (m.tx_failures ≡ u32 (n.tx_failures + 1))
        × (m.transport ≡ resent n.transport frame k)
  unfolding service_all
  service_all-gives_up n [] k frame r e on w left len late = absurd (omega arith)
  service_all-gives_up n (now_ms ∷ times) (suc k) frame r e on w left len late =
      let s = service-retry n now_ms frame r e on late.0 (omega arith) w in
      let m = record n {
        transport = (t.write n.transport frame).1;
        pending = record (n.pending) { retries = n.pending.retries + 1; sent_at_ms = now_ms };
      } in
      rw (s, service_all)
        (service_all-gives_up m times k frame r e on w (omega arith) (omega arith) (rw s at late.1))
  service_all-gives_up n (now_ms ∷ []) zero frame r e on w left len late =
      rw (service-give_up n now_ms on late.0 (omega arith), service_all) (refl, refl, refl)
  service_all-gives_up n (now_ms ∷ b ∷ times) zero frame r e on w left len late =
      absurd (omega arith)

  write_packet-refused :
      (n : BikeNode S) (p : Packet)
      → ((s : S) (frame : List ℕ) → t.write s frame ≡ (false, s))
      → write_packet n p ≡ (false, n)
  unfolding write_packet
  write_packet-refused n p refuses = elim (Option-cases (encode_packet p (some 140))) [
    | inl e ↦ rw (e, write_packet)
    | inr (frame, e) ↦ rw (e, write_packet) (ground (arith, refuses n.transport frame))
  ]

  service-refused :
      (n : BikeNode S) (now_ms : ℕ)
      → ((s : S) (frame : List ℕ) → t.write s frame ≡ (false, s))
      → n.pending.retries < n.max_retries
      → service n now_ms ≡ n
  unfolding service
  service-refused n now_ms refuses h =
      ground (arith, write_packet-refused n n.pending.packet refuses)

  -- While the transport refuses every write and retries are left, no timeout ends the wait: the
  -- packet keeps waiting with the same number of retries, and no failure is counted.
  pub service_all-stuck :
      (n : BikeNode S) (times : List ℕ)
      → ((s : S) (frame : List ℕ) → t.write s frame ≡ (false, s))
      → n.pending.retries < n.max_retries
      → service_all n times ≡ n
  unfolding service_all
  service_all-stuck n [] refuses h = refl
  service_all-stuck n (now_ms ∷ times) refuses h =
      ap (λ m. service_all m times) (service-refused n now_ms refuses h)
      ∙ service_all-stuck n times refuses h
