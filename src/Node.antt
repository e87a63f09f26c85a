-- ===== src/Node.antt =====
-- library/include/bike/node.hpp and library/src/node.cpp: a node's end of the link, with one
-- outgoing packet that waits for its acknowledgement and a queue of received packets.
--
-- The reference to the transport is the transport's state, a field; every method returns the new
-- node. A `bool` with a packet passed out is an option of a packet.
pub mod Queue
pub mod Poll
pub mod Drain
pub mod Retry
pub mod Tests
use motorcycle_computer.Base.{
  ℕ, ◌+◌, ◌-◌, ◌%◌, Bool, true, false, not, ◌&&◌, ◌||◌, Option, none, some, List, [], ◌∷◌, get_or,
  set, replicate, ltb, leb, u8, u16, u32, elapsed, ◌==◌, ◌!=◌, if◌then◌else◌, bit_and, bit_or,
}
use motorcycle_computer.Protocol.Packet.{
  Packet, empty_packet, max_frame_size, flag_ack_required, flag_response,
}
use motorcycle_computer.Protocol.Packet.NodeAddress
use motorcycle_computer.Protocol.Packet.MessageType
use motorcycle_computer.Protocol.Codec.{encode_packet}
use motorcycle_computer.StreamParser.{StreamParser, new_parser, push}
use motorcycle_computer.Transport.{Transport}

pub record PendingTx : Type 0 where
  pub active : Bool
  pub packet : Packet
  pub sent_at_ms : ℕ
  pub retries : ℕ

abbrev pub node_rx_queue_size : ℕ
node_rx_queue_size = 8

abbrev pub poll_chunk_size : ℕ
poll_chunk_size = 64

pub record BikeNode (S : Type 0) : Type 0 where
  pub address : ℕ
  pub transport : S
  pub parser : StreamParser
  pub sequence : ℕ
  pub pending : PendingTx
  pub ack_timeout_ms : ℕ
  pub max_retries : ℕ
  pub tx_failures : ℕ
  pub auto_ack : Bool
  pub rx_queue : List Packet
  pub rx_head : ℕ
  pub rx_tail : ℕ
  pub rx_count : ℕ
  pub rx_drops : ℕ

-- The constructor, with the members' initial values.
unfoldable pub new_node : {S : Type 0} → ℕ → S → BikeNode S
new_node address transport = record {
  address = address;
  transport = transport;
  parser = new_parser;
  sequence = 1;
  pending = record { active = false; packet = empty_packet; sent_at_ms = 0; retries = 0 };
  ack_timeout_ms = 250;
  max_retries = 3;
  tx_failures = 0;
  auto_ack = true;
  rx_queue = replicate node_rx_queue_size empty_packet;
  rx_head = 0;
  rx_tail = 0;
  rx_count = 0;
  rx_drops = 0;
}

-- `(packet.flags & FlagAckRequired) != 0`.
unfoldable pub wants_ack : Packet → Bool
wants_ack p = bit_and p.flags flag_ack_required != 0

module _ {S : Type 0} where
  unfoldable pub set_ack_timeout_ms : BikeNode S → ℕ → BikeNode S
  set_ack_timeout_ms n value = record n { ack_timeout_ms = value }

  unfoldable pub set_max_retries : BikeNode S → ℕ → BikeNode S
  set_max_retries n value = record n { max_retries = value }

  unfoldable pub set_auto_ack : BikeNode S → Bool → BikeNode S
  set_auto_ack n enabled = record n { auto_ack = enabled }

  -- Zero is no sequence number.
  unfoldable pub next_sequence : BikeNode S → ℕ × BikeNode S
  next_sequence n =
      let next = u16 (n.sequence + 1) in
      (n.sequence, record n { sequence = if next == 0 then 1 else next })

  unfoldable pub handle_control_packet : BikeNode S → Packet → BikeNode S
  handle_control_packet n p =
      if not n.pending.active
      then n
      else if p.sequence != n.pending.packet.sequence
      then n
      else if p.source != n.pending.packet.destination
      then n
      else if p.type == MessageType.ack
      then record n { pending = record (n.pending) { active = false } }
      else if p.type == MessageType.nack
      then record n { pending = record (n.pending) { sent_at_ms = 0 } }
      else n

  unfoldable pub enqueue_rx : BikeNode S → Packet → Bool × BikeNode S
  enqueue_rx n p =
      if leb node_rx_queue_size n.rx_count
      then (false, record n { rx_drops = u32 (n.rx_drops + 1) })
      else (
        true,
        record n {
          rx_queue = set n.rx_queue n.rx_tail p;
          rx_tail = (n.rx_tail + 1) % node_rx_queue_size;
          rx_count = n.rx_count + 1;
        },
      )

  unfoldable pub dequeue_rx : BikeNode S → Option Packet × BikeNode S
  dequeue_rx n = if n.rx_count == 0 then (none, n) else (
    some (get_or n.rx_queue n.rx_head empty_packet),
    record n { rx_head = (n.rx_head + 1) % node_rx_queue_size; rx_count = n.rx_count - 1 },
  )

module _ {S : Type 0} ⦃t : Transport S⦄ where
  unfoldable pub write_packet : BikeNode S → Packet → Bool × BikeNode S
  write_packet n p = elim (encode_packet p (some max_frame_size)) [
    | none ↦ (false, n)
    | some frame ↦ let (sent, tr) = t.write n.transport frame in (sent, record n { transport = tr })
  ]

  -- The packet with its source and sequence number filled in.
  unfoldable pub stamp : BikeNode S → Packet → Packet × BikeNode S
  unfolding next_sequence
  stamp n p =
      let q = record p { source = n.address } in
      if p.sequence == 0
      then (let (value, n') = next_sequence n in (record q { sequence = value }, n'))
      else (q, n)

  -- `send` with a stamped packet, for each value of `require_ack`.
  unfoldable pub send_stamped : BikeNode S → Packet → ℕ → Bool → Bool × BikeNode S
  send_stamped n p now_ms false = write_packet n p
  send_stamped n p now_ms true =
      if n.pending.active
      then (false, n)
      else (let q = record p { flags = bit_or p.flags flag_ack_required } in
          let (sent, n') = write_packet n q in
          if sent
          then (
            true,
            record n' {
              pending = record { active = true; packet = q; sent_at_ms = now_ms; retries = 0 };
            },
          )
          else (false, n'))

  unfoldable pub send : BikeNode S → Packet → ℕ → Bool → Bool × BikeNode S
  unfolding stamp send_stamped
  send n p now_ms require_ack = let (q, n') = stamp n p in send_stamped n' q now_ms require_ack

  unfoldable pub send_ack : BikeNode S → ℕ → ℕ → Bool → Bool × BikeNode S
  send_ack n destination sequence nack = write_packet n (record empty_packet {
    source = n.address;
    destination = destination;
    type = if nack then MessageType.nack else MessageType.ack;
    flags = flag_response;
    sequence = sequence;
    length = 0;
  })

  -- The body of the loop of `poll` for a parsed packet.
  unfoldable pub receive : BikeNode S → Packet → BikeNode S
  receive n p =
      if p.destination != n.address && p.destination != NodeAddress.broadcast
      then n
      else if p.type == MessageType.ack || p.type == MessageType.nack
      then handle_control_packet n p
      else (enqueue_rx
          (if n.auto_ack && wants_ack p then (send_ack n p.source p.sequence false).1 else n) p).1

  -- The loop of `poll` over the bytes that were read.
  unfoldable pub poll_bytes : BikeNode S → List ℕ → BikeNode S
  poll_bytes n [] = n
  poll_bytes n (byte ∷ bytes) =
      let (got, parser, p) = push n.parser byte empty_packet in
      let n' = record n { parser = parser } in poll_bytes (if got then receive n' p else n') bytes

  unfoldable pub poll : BikeNode S → ℕ → Option Packet × BikeNode S
  poll n now_ms =
      let (first, n₁) = dequeue_rx n in
      elim first [
        | some p ↦ (some p, n₁)
        | none ↦
            let (chunk, tr) = t.read n₁.transport poll_chunk_size in
            dequeue_rx (poll_bytes (record n₁ { transport = tr }) chunk)
      ]

  unfoldable pub service : BikeNode S → ℕ → BikeNode S
  service n now_ms =
      if not n.pending.active
      then n
      else if ltb (elapsed now_ms n.pending.sent_at_ms) n.ack_timeout_ms
      then n
      else if leb n.max_retries n.pending.retries
      then record n {
        pending = record (n.pending) { active = false };
        tx_failures = u32 (n.tx_failures + 1);
      }
      else (let (sent, n') = write_packet n n.pending.packet in
          if sent
          then record n' {
            pending = record (n.pending) {
              retries = u8 (n.pending.retries + 1);
              sent_at_ms = now_ms;
            };
          }
          else n')
