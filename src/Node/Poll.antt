-- ===== src/Node/Poll.antt =====
-- What `poll` delivers.
use motorcycle_computer.Base.{
  ℕ, ◌+◌, ◌≤◌, ◌<◌, ◌≡◌, arith, List, [], ◌∷◌, ◌++◌, Bool, not, ◌&&◌, ◌||◌, ◌==◌, Option, some,
  none, false, length, append-nil, append_assoc, length-append, if◌then◌else◌,
}
use motorcycle_computer.Protocol.Packet.{Packet, empty_packet}
use motorcycle_computer.Protocol.Packet.NodeAddress
use motorcycle_computer.Protocol.Packet.MessageType
use motorcycle_computer.StreamParser.{feed, push}
use motorcycle_computer.StreamParser.Inv.{IsValid}
use motorcycle_computer.StreamParser.Stream.{feed-IsValid}
use motorcycle_computer.StreamParser.Rate.{feed-chunk}
use motorcycle_computer.Transport.{Transport, IsBounded}
use motorcycle_computer.Node.{
  BikeNode, write_packet, send_ack, handle_control_packet, enqueue_rx, dequeue_rx, receive,
  poll_bytes, poll, poll_chunk_size,
}
use motorcycle_computer.Node.Queue.{
  contents, IsQueue, enqueue_rx_refines, dequeue_rx_refines, length-contents,
}

-- A packet for this node or for all, other than an acknowledgement.
abbrev pub is_for : ℕ → Packet → Bool
is_for address p =
    (p.destination == address || p.destination == NodeAddress.broadcast)
    && not (p.type == MessageType.ack || p.type == MessageType.nack)

abbrev pub delivered : ℕ → List Packet → List Packet
delivered address [] = []
delivered address (p ∷ ps) =
    if is_for address p then p ∷ delivered address ps else delivered address ps

length-delivered : (address : ℕ) (ps : List Packet) → length (delivered address ps) ≤ length ps
length-delivered address [] = omega arith
length-delivered address (p ∷ ps) = ground (arith, length-delivered address ps)

module _ {S : Type 0} where
  handle_control_packet-only :
      (n : BikeNode S) (p : Packet)
      → handle_control_packet n p ≡ record n { pending = (handle_control_packet n p).pending }
  unfolding handle_control_packet
  handle_control_packet-only n p = ground arith

module _ {S : Type 0} ⦃t : Transport S⦄ where
  pub write_packet-only :
      (n : BikeNode S) (p : Packet)
      → (write_packet n p).1 ≡ record n { transport = (write_packet n p).1.transport }
  unfolding write_packet
  write_packet-only n p = ground arith

  pub send_ack-only :
      (n : BikeNode S) (destination sequence : ℕ) (nack : Bool)
      → (send_ack n destination sequence nack).1
        ≡ record n { transport = (send_ack n destination sequence nack).1.transport }
  unfolding send_ack
  send_ack-only n destination sequence nack = write_packet-only n _

  enqueue-delivers :
      (n : BikeNode S) (tr : S) (p : Packet)
      → IsQueue n
      → length (contents n) < 8
      → let m = (enqueue_rx (record n { transport = tr }) p).1 in
        IsQueue m
        × (contents m ≡ contents n ++ p ∷ [])
        × (m.rx_drops ≡ n.rx_drops)
        × (m.address ≡ n.address)
        × (m.parser ≡ n.parser)
  unfolding enqueue_rx
  enqueue-delivers n tr p v room = ground (
    arith,
    length-contents n,
    enqueue_rx_refines (record n { transport = tr }) p (omega (arith, v)),
  )

  -- A parsed packet joins the queue if it is for this node.
  receive-contents :
      (n : BikeNode S) (p : Packet)
      → IsQueue n
      → length (contents n) < 8
      → IsQueue (receive n p)
        × (contents (receive n p)
            ≡ (if is_for n.address p then contents n ++ p ∷ [] else contents n))
        × ((receive n p).rx_drops ≡ n.rx_drops)
        × ((receive n p).address ≡ n.address)
        × ((receive n p).parser ≡ n.parser)
  unfolding receive
  receive-contents n p v room = ground (
    arith,
    handle_control_packet-only n p,
    send_ack-only n p.source p.sequence false,
    enqueue-delivers n n.transport p v room,
    enqueue-delivers n (send_ack n p.source p.sequence false).1.transport p v room,
  )

  -- The packets of a run of bytes join the queue, while there is room.
  poll_bytes-contents :
      (n : BikeNode S) (bytes : List ℕ)
      → IsQueue n
      → length (contents n) + length (feed n.parser bytes).0 ≤ 8
      → IsQueue (poll_bytes n bytes)
        × (contents (poll_bytes n bytes)
            ≡ contents n ++ delivered n.address (feed n.parser bytes).0)
        × ((poll_bytes n bytes).rx_drops ≡ n.rx_drops)
        × ((poll_bytes n bytes).parser ≡ (feed n.parser bytes).1)
  unfolding poll_bytes feed
  poll_bytes-contents n [] v room = ground (arith, append-nil (contents n))
  poll_bytes-contents n (byte ∷ bytes) v room =
      let (got, parser, p) = push n.parser byte empty_packet in
      let n' = record n { parser = parser } in
      let q : IsQueue n' = omega (arith, v) in
      ground (
        arith,
        receive-contents n' p q,
        poll_bytes-contents (receive n' p) bytes,
        poll_bytes-contents n' bytes q,
        append_assoc (contents n) (p ∷ []) (delivered n.address (feed parser bytes).0),
        length-append (contents n) (p ∷ []),
        length-contents n,
      )

module _ {S : Type 0} where
  pub dequeue_rx-keeps :
      (n : BikeNode S)
      → ((dequeue_rx n).1.rx_drops ≡ n.rx_drops)
        × ((dequeue_rx n).1.parser ≡ n.parser)
        × ((dequeue_rx n).1.transport ≡ n.transport)
        × ((dequeue_rx n).1.address ≡ n.address)
        × ((dequeue_rx n).1.pending ≡ n.pending)
  unfolding dequeue_rx
  dequeue_rx-keeps n = ground arith

-- What is at hand: the queue, or what arrived if the queue was empty.
abbrev pub at_hand : List Packet → List Packet → List Packet
at_hand [] arrived = arrived
at_hand (p ∷ queue) arrived = p ∷ queue

abbrev pub oldest : List Packet → Option Packet
oldest [] = none
oldest (p ∷ ps) = some p

abbrev pub others : List Packet → List Packet
others [] = []
others (p ∷ ps) = ps

module _ {S : Type 0} ⦃t : Transport S⦄ where
  -- The packets for this node in the chunk that the transport has.
  abbrev pub arrived : BikeNode S → List Packet
  arrived n = delivered n.address (feed n.parser (t.read n.transport poll_chunk_size).0).0

  -- The state that `poll` keeps.
  pub record IsReceiver (n : BikeNode S) : Type 0 where
    pub queue : IsQueue n
    pub parsing : IsValid n.parser

  dequeue_rx-oldest :
      (n : BikeNode S)
      → IsQueue n
      → IsQueue (dequeue_rx n).1
        × ((dequeue_rx n).0 ≡ oldest (contents n))
        × (contents (dequeue_rx n).1 ≡ others (contents n))
  dequeue_rx-oldest n v = ground (arith, dequeue_rx_refines n v)

  -- The second half of `poll`.
  poll_empty :
      (n : BikeNode S)
      → IsBounded t
      → IsReceiver n
      → contents n ≡ []
      → let (chunk, tr) = t.read n.transport poll_chunk_size in
        let m = poll_bytes (record n { transport = tr }) chunk in
        IsReceiver m × (contents m ≡ arrived n) × (m.rx_drops ≡ n.rx_drops)
  poll_empty n b v e =
      let (chunk, tr) = t.read n.transport poll_chunk_size in
      let q : IsQueue (record n { transport = tr }) = omega (arith, v.queue) in
      ground (
        arith,
        e,
        poll_bytes-contents (record n { transport = tr }) chunk q,
        feed-chunk n.parser chunk v.parsing (b.read_le n.transport 64),
        feed-IsValid n.parser chunk v.parsing,
      )

  -- With a transport that stays within the buffer, `poll` returns the oldest packet at hand and
  -- keeps the others in order: those queued before, or, if there were none, those of the next chunk
  -- of the stream that are for this node and no acknowledgements. No received packet is dropped,
  -- and the node stays fit for the next call.
  pub poll_refines :
      (n : BikeNode S) (now_ms : ℕ)
      → IsBounded t
      → IsReceiver n
      → ((poll n now_ms).0 ≡ oldest (at_hand (contents n) (arrived n)))
        × (contents (poll n now_ms).1 ≡ others (at_hand (contents n) (arrived n)))
        × ((poll n now_ms).1.rx_drops ≡ n.rx_drops)
        × IsReceiver (poll n now_ms).1
  unfolding poll
  poll_refines n now_ms b v =
      let (chunk, tr) = t.read n.transport poll_chunk_size in
      let m = poll_bytes (record n { transport = tr }) chunk in
      ground (
        arith,
        dequeue_rx_refines n v.queue,
        dequeue_rx-keeps n,
        poll_empty n b v,
        dequeue_rx-oldest m,
        dequeue_rx-keeps m,
      )
