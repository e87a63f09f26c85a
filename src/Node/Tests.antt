-- ===== src/Node/Tests.antt =====
-- Tests of a node over a transport in memory, the one of tests/network_runtime_test.cpp, and the
-- theorems at concrete nodes.
use motorcycle_computer.Node.Drain.{IsClosed}
use motorcycle_computer.Base.{
  ℕ, ◌≡◌, refl, arith, true, false, some, List, [], ◌∷◌, ◌++◌, take, drop, length-take-le,
  length-drop-take, length,
}
use motorcycle_computer.Protocol.Packet.NodeAddress
use motorcycle_computer.Protocol.Crc.{crc16_ccitt_false}
use motorcycle_computer.Protocol.Codec.{
  encode_packet, encoded_size, frame_body, write_u16_be, decode_packet, read_u16_be, fill_packet,
}
use motorcycle_computer.Protocol.Codec.Tests.{left_on, left_on_frame, encode-left_on}
use motorcycle_computer.StreamParser.{push}
use motorcycle_computer.StreamParser.Inv.{new_parser-IsValid}
use motorcycle_computer.Transport.{Transport, IsBounded, IsReliable}
use motorcycle_computer.Node.{
  BikeNode, new_node, handle_control_packet, enqueue_rx, dequeue_rx, poll, service, wants_ack,
  poll_bytes, receive, send_ack, write_packet,
}
use motorcycle_computer.Node.Queue.{IsQueue}
use motorcycle_computer.Node.Poll.{IsReceiver, at_hand, oldest, arrived, poll_refines}
use motorcycle_computer.Node.Retry.{service_all, service_all-gives_up, resent}

pub record Memory : Type 0 where
  pub rx : List ℕ
  pub writes : List (List ℕ)

instance abbrev pub memory : Transport Memory
memory = record {
  write = λ m frame. (true, record m { writes = m.writes ++ frame ∷ [] });
  read = λ m capacity. (take capacity m.rx, record m { rx = drop capacity m.rx });
}

pub memory-IsBounded : IsBounded memory
memory-IsBounded = record { read_le = λ m capacity. length-take-le capacity m.rx }

abbrev pub unread : Memory → ℕ
unread m = length m.rx

pub memory-IsClosed : IsClosed memory unread
memory-IsClosed = record {
  read_left = λ m capacity. omega (arith, length-drop-take capacity m.rx);
  write_left = λ m frame. omega arith;
}

pub memory-IsReliable : IsReliable memory
memory-IsReliable = record { write_true = λ m frame. refl }

abbrev pub lighting_node : BikeNode Memory
unfolding new_node
lighting_node = new_node NodeAddress.lighting (record { rx = 0x00 ∷ left_on_frame; writes = [] })

abbrev pub main_node : BikeNode Memory
unfolding new_node
main_node = new_node NodeAddress.main_computer (record { rx = []; writes = [] })

-- The main computer, waiting for the acknowledgement of `left_on`.
abbrev waiting : BikeNode Memory
unfolding new_node
waiting = record main_node {
  pending = record { active = true; packet = left_on; sent_at_ms = 1000; retries = 0 };
  max_retries = 1;
}

lighting_node-IsQueue : IsQueue lighting_node
unfolding new_node
lighting_node-IsQueue = omega arith

lighting_node-IsReceiver : IsReceiver lighting_node
unfolding new_node
lighting_node-IsReceiver = record { queue = lighting_node-IsQueue; parsing = new_parser-IsValid }

-- The packet is delivered, and its acknowledgement is written.
poll-left_on :
    ((poll lighting_node 2000).0 ≡ some left_on)
    × (length (poll lighting_node 2000).1.transport.writes ≡ 1)
unfolding new_node poll poll_bytes receive dequeue_rx enqueue_rx send_ack write_packet wants_ack
    handle_control_packet push decode_packet read_u16_be fill_packet encode_packet encoded_size
    frame_body write_u16_be crc16_ccitt_false
poll-left_on = (refl, refl)

poll_refines_example : (poll lighting_node 2000).0 ≡ oldest (at_hand [] (arrived lighting_node))
unfolding new_node
poll_refines_example = (poll_refines lighting_node 2000 memory-IsBounded lighting_node-IsReceiver).0

service_all-gives_up_example :
    let m = service_all waiting (1250 ∷ 1600 ∷ []) in
    (m.pending.active ≡ false)
    × (m.tx_failures ≡ 1)
    × (m.transport ≡ resent waiting.transport left_on_frame 1)
unfolding new_node service write_packet encode_packet encoded_size frame_body write_u16_be
    crc16_ccitt_false
service_all-gives_up_example =
    service_all-gives_up waiting (1250 ∷ 1600 ∷ []) 1 left_on_frame memory-IsReliable encode-left_on
      refl (omega arith) (omega arith) (omega arith) (omega arith)
