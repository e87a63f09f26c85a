-- ===== src/Northbridge/Runtime.antt =====
-- library/src/northbridge.cpp: what the northbridge does with the bytes that arrive.
use motorcycle_computer.Base.{
  ℕ, ◌+◌, ◌-◌, zero, suc, Bool, true, not, ◌||◌, none, some, List, [], ◌∷◌, get_or, set, length,
  ltb, u32, ◌==◌, if◌then◌else◌,
}
use motorcycle_computer.Protocol.Packet.{Packet, empty_packet, flag_response}
use motorcycle_computer.Protocol.Packet.NodeAddress
use motorcycle_computer.Protocol.Packet.MessageType
use motorcycle_computer.StreamParser.{new_parser, push}
use motorcycle_computer.Transport.{Transport}
use motorcycle_computer.Node.{wants_ack}
use motorcycle_computer.Router.{max_router_ports, assign, route_for, mark_seen, forward}
use motorcycle_computer.Northbridge.{
  NorthbridgeRuntime, port_at, change_stats, count_sent, count_dropped, expected_port_for,
  send_local,
}
use motorcycle_computer.Northbridge.Packets.{
  send_device_info, send_heartbeat, send_diagnostics, send_topology_fault,
}

-- The size of `chunk` in `service_port`.
abbrev pub port_chunk_size : ℕ
port_chunk_size = 64

module _ {S : Type 0} where
  -- The loop of `account_forward` for a broadcast, over the `count` ports from `port` on.
  unfoldable pub count_broadcast : NorthbridgeRuntime S → ℕ → ℕ → ℕ → NorthbridgeRuntime S
  count_broadcast b ingress_port port zero = b
  count_broadcast b ingress_port port (suc count) =
      let b' =
        if port == ingress_port
        then b
        else elim (port_at b port) [ none ↦ b | some _ ↦ count_sent b port ] in
      count_broadcast b' ingress_port (port + 1) count

  unfoldable pub account_forward : NorthbridgeRuntime S → Packet → ℕ → Bool → NorthbridgeRuntime S
  account_forward b p ingress_port success =
      if not success
      then count_dropped b ingress_port
      else if p.destination == NodeAddress.broadcast
      then count_broadcast b ingress_port 0 max_router_ports
      else elim (route_for b.router p.destination) [
        | none ↦ b
        | some port ↦ if port == ingress_port then b else count_sent b port
      ]

  -- The last line of `service_port`, and the check of its first.
  unfoldable pub count_malformed : NorthbridgeRuntime S → ℕ → NorthbridgeRuntime S
  count_malformed b port =
      let rejected = (get_or b.parsers port new_parser).rejected_frames in
      let seen = get_or b.parser_reject_snapshot port 0 in
      if ltb seen rejected
      then record (change_stats b port
          (λ e. record e { malformed_frames = u32 (e.malformed_frames + (rejected - seen)) })) {
            parser_reject_snapshot = set b.parser_reject_snapshot port rejected;
          }
      else b

module _ {S : Type 0} ⦃t : Transport S⦄ where
  -- `handle_local_packet`, after the time is noted: the acknowledgement that is asked for,
  unfoldable pub acknowledge_local : NorthbridgeRuntime S → Packet → ℕ → NorthbridgeRuntime S
  acknowledge_local b p ingress_port =
      if wants_ack p
      then (send_local b
          (record empty_packet {
            destination = p.source;
            type = MessageType.ack;
            flags = flag_response;
            sequence = p.sequence;
          })
          ingress_port).1
      else b

  -- and the answer.
  unfoldable pub answer_local : NorthbridgeRuntime S → Packet → ℕ → Bool × NorthbridgeRuntime S
  answer_local b p ingress_port =
      if p.type == MessageType.device_discovery
      then send_device_info b p.source ingress_port
      else if p.type == MessageType.heartbeat
      then send_heartbeat b p.source ingress_port
      else if p.type == MessageType.diagnostic || p.type == MessageType.get_state
      then send_diagnostics b p.source ingress_port
      else (true, b)

  unfoldable pub handle_local_packet :
      NorthbridgeRuntime S → Packet → ℕ → ℕ → Bool × NorthbridgeRuntime S
  handle_local_packet b p ingress_port now_ms =
      answer_local (acknowledge_local (record b { last_service_ms = now_ms }) p ingress_port) p
        ingress_port

  -- The body of the loop of `service_port` for a packet, after the check of the topology.
  unfoldable pub route_packet : NorthbridgeRuntime S → Packet → ℕ → ℕ → NorthbridgeRuntime S
  route_packet b p port now_ms =
      let (forwarded, r) = forward b.router p port now_ms in
      let b' = account_forward (record b { router = r }) p port forwarded in
      if p.destination == NodeAddress.northbridge
      then (handle_local_packet (record b { router = mark_seen b.router p.source port now_ms }) p
          port now_ms).1
      else if forwarded
      then record b' { forwarded_packets = u32 (b'.forwarded_packets + 1) }
      else record b' { dropped_packets = u32 (b'.dropped_packets + 1) }

  -- A packet from a node that is bound to another port.
  unfoldable pub misplaced_packet : NorthbridgeRuntime S → Packet → ℕ → ℕ → ℕ → NorthbridgeRuntime S
  misplaced_packet b p expected_port port now_ms =
      let moved = record b { route_movement_events = u32 (b.route_movement_events + 1) } in
      let faulty = record moved {
        topology_fault_events = u32 (b.topology_fault_events + 1);
        dropped_packets = u32 (b.dropped_packets + 1);
      } in
      if b.topology_enforced
      then (send_topology_fault (count_dropped faulty port) p.source expected_port port).1
      else route_packet moved p port now_ms

  unfoldable pub handle_packet : NorthbridgeRuntime S → Packet → ℕ → ℕ → NorthbridgeRuntime S
  handle_packet b p port now_ms =
      let b' = change_stats b port (λ e. record e { rx_packets = u32 (e.rx_packets + 1) }) in
      elim (expected_port_for b' p.source) [
        | none ↦ route_packet b' p port now_ms
        | some expected_port ↦
            if expected_port == port
            then route_packet b' p port now_ms
            else misplaced_packet b' p expected_port port now_ms
      ]

  -- The loop of `service_port` over the bytes that were read.
  unfoldable pub handle_bytes : NorthbridgeRuntime S → List ℕ → ℕ → ℕ → NorthbridgeRuntime S
  handle_bytes b [] port now_ms = b
  handle_bytes b (byte ∷ bytes) port now_ms =
      let (got, parser, p) = push (get_or b.parsers port new_parser) byte empty_packet in
      let b' = record b { parsers = set b.parsers port parser } in
      handle_bytes (if got then handle_packet b' p port now_ms else b') bytes port now_ms

  unfoldable pub service_port : NorthbridgeRuntime S → ℕ → ℕ → NorthbridgeRuntime S
  service_port b port now_ms = elim (port_at b port) [
    | none ↦ b
    | some transport ↦
        let r = b.router in
        let (chunk, state) = t.read (r.transports transport) port_chunk_size in
        let b' = record b {
          router = record r { transports = assign r.transports transport state };
        } in
        let counted =
          change_stats b' port (λ e. record e { rx_bytes = u32 (e.rx_bytes + length chunk) }) in
        count_malformed (handle_bytes counted chunk port now_ms) port
  ]

  -- The loop of `service`, over the `count` ports from `port` on.
  unfoldable pub service_from : NorthbridgeRuntime S → ℕ → ℕ → ℕ → NorthbridgeRuntime S
  service_from b port zero now_ms = b
  service_from b port (suc count) now_ms =
      service_from (service_port b port now_ms) (port + 1) count now_ms

  unfoldable pub service : NorthbridgeRuntime S → ℕ → NorthbridgeRuntime S
  unfolding service_from
  service b now_ms = service_from (record b { last_service_ms = now_ms }) 0 max_router_ports now_ms
