-- ===== src/Northbridge/Transports.antt =====
-- Which transports the northbridge writes to when it answers or passes on a packet.
use motorcycle_computer.Base.{ℕ, ◌≡◌, ◌⊎◌, arith, true, some, ◌==◌, if◌then◌else◌}
use motorcycle_computer.Protocol.Packet.{Packet, empty_packet, flag_response}
use motorcycle_computer.Protocol.Packet.NodeAddress
use motorcycle_computer.Protocol.Packet.MessageType
use motorcycle_computer.Transport.{Transport}
use motorcycle_computer.Router
use motorcycle_computer.Router.{Router, mark_seen, put_route, touch, forward, assign}
use motorcycle_computer.Northbridge.{
  NorthbridgeRuntime, port_at, stamp_local, write_frame, send_local,
}
use motorcycle_computer.Northbridge.Packets.{
  diagnostics_packet, send_device_info, send_heartbeat, send_diagnostics,
}
use motorcycle_computer.Northbridge.Runtime.{
  acknowledge_local, answer_local, handle_local_packet, route_packet,
}
use motorcycle_computer.Northbridge.Setup.{acknowledge_local-SameRoutes, account_forward-transports}

module _ {S : Type 0} ⦃t : Transport S⦄ where
  pub send_local-transports :
      (b : NorthbridgeRuntime S) (p : Packet) (egress_port k : ℕ)
      → ((send_local b p egress_port).1.router.transports k ≡ b.router.transports k)
        ⊎ (port_at b egress_port ≡ some k)
  unfolding send_local stamp_local write_frame assign
  send_local-transports b p egress_port k = ground arith

  send_diagnostics-transports :
      (b : NorthbridgeRuntime S) (destination egress_port k : ℕ)
      → ((send_diagnostics b destination egress_port).1.router.transports k ≡ b.router.transports k)
        ⊎ (port_at b egress_port ≡ some k)
  unfolding send_diagnostics
  send_diagnostics-transports b destination egress_port k =
      send_local-transports b (diagnostics_packet b destination) egress_port k

  send_device_info-transports :
      (b : NorthbridgeRuntime S) (destination egress_port k : ℕ)
      → ((send_device_info b destination egress_port).1.router.transports k ≡ b.router.transports k)
        ⊎ (port_at b egress_port ≡ some k)
  unfolding send_device_info
  send_device_info-transports b destination egress_port k = send_local-transports b _ egress_port k

  send_heartbeat-transports :
      (b : NorthbridgeRuntime S) (destination egress_port k : ℕ)
      → ((send_heartbeat b destination egress_port).1.router.transports k ≡ b.router.transports k)
        ⊎ (port_at b egress_port ≡ some k)
  unfolding send_heartbeat
  send_heartbeat-transports b destination egress_port k = send_local-transports b _ egress_port k

  answer_local-transports :
      (b : NorthbridgeRuntime S) (p : Packet) (ingress_port k : ℕ)
      → ((answer_local b p ingress_port).1.router.transports k ≡ b.router.transports k)
        ⊎ (port_at b ingress_port ≡ some k)
  unfolding answer_local
  answer_local-transports b p ingress_port k = ground (
    arith,
    send_device_info-transports b p.source ingress_port k,
    send_heartbeat-transports b p.source ingress_port k,
    send_diagnostics-transports b p.source ingress_port k,
  )

  acknowledge_local-transports :
      (b : NorthbridgeRuntime S) (p : Packet) (ingress_port k : ℕ)
      → ((acknowledge_local b p ingress_port).router.transports k ≡ b.router.transports k)
        ⊎ (port_at b ingress_port ≡ some k)
  unfolding acknowledge_local
  acknowledge_local-transports b p ingress_port k =
      let reply : Packet = record empty_packet {
        destination = p.source;
        type = MessageType.ack;
        flags = flag_response;
        sequence = p.sequence;
      } in
      ground (arith, send_local-transports b reply ingress_port k)

  handle_local_packet-transports :
      (b : NorthbridgeRuntime S) (p : Packet) (ingress_port now_ms k : ℕ)
      → ((handle_local_packet b p ingress_port now_ms).1.router.transports k
          ≡ b.router.transports k)
        ⊎ (port_at b ingress_port ≡ some k)
  unfolding handle_local_packet
  handle_local_packet-transports b p ingress_port now_ms k =
      let timed = record b { last_service_ms = now_ms } in
      let told = acknowledge_local timed p ingress_port in
      ground (
        arith,
        acknowledge_local-SameRoutes timed p ingress_port,
        acknowledge_local-transports timed p ingress_port k,
        answer_local-transports told p ingress_port k,
      )

  mark_seen-transports :
      (r : Router S) (source port now_ms : ℕ)
      → (mark_seen r source port now_ms).transports ≡ r.transports
  unfolding mark_seen Router.set_route put_route touch
  mark_seen-transports r source port now_ms = ground arith

  -- Where a packet is passed on, the transports are as the router leaves them; one for the
  -- northbridge itself reaches at most the transport of the port that it came in on.
  pub route_packet-transports :
      (b : NorthbridgeRuntime S) (p : Packet) (port now_ms k : ℕ)
      → let b' = route_packet b p port now_ms in
        let is_local = p.destination == NodeAddress.northbridge in
        (b'.router.transports k
          ≡ (if is_local then b.router else (forward b.router p port now_ms).1).transports k)
        ⊎ ((is_local ≡ true) × (port_at b port ≡ some k))
  unfolding route_packet
  route_packet-transports b p port now_ms k =
      let (done, r) = forward b.router p port now_ms in
      let seen = record b { router = mark_seen b.router p.source port now_ms } in
      ground (
        arith,
        account_forward-transports (record b { router = r }) p port done,
        handle_local_packet-transports seen p port now_ms k,
        mark_seen-transports b.router p.source port now_ms,
      )
