-- ===== src/Northbridge/Setup.antt =====
-- What the packets that pass through leave alone: the ports, the bindings, and the counters that
-- an answer does not touch.
use motorcycle_computer.Base.{
  refl, ℕ, ◌+◌, zero, suc, ◌≡◌, arith, Bool, none, some, Option-cases, inl, inr, ◌==◌,
  if◌then◌else◌,
}
use motorcycle_computer.Protocol.Packet.{Packet, empty_packet, flag_response}
use motorcycle_computer.Protocol.Packet.NodeAddress
use motorcycle_computer.Protocol.Packet.MessageType
use motorcycle_computer.Transport.{Transport}
use motorcycle_computer.Router.{route_for, max_router_ports}
use motorcycle_computer.Northbridge.{
  NorthbridgeRuntime, port_at, count_sent, count_dropped, stamp_local, write_frame, send_local,
}
use motorcycle_computer.Northbridge.Packets.{
  diagnostics_packet, send_device_info, send_heartbeat, send_diagnostics, send_topology_fault,
  topology_fault_packet,
}
use motorcycle_computer.Northbridge.Runtime.{
  count_broadcast, account_forward, acknowledge_local, answer_local, handle_local_packet,
}

module _ {S : Type 0} where
  -- Two states that differ in the transports, the counters of the ports, the local sequence number,
  -- the time and the mark of undefined behaviour only.
  pub record SameRoutes (b b' : NorthbridgeRuntime S) : Type 0 where
    pub ports : b'.ports ≡ b.ports
    pub router_ports : b'.router.ports ≡ b.router.ports
    pub routes : b'.router.routes ≡ b.router.routes
    pub bindings : b'.bindings ≡ b.bindings
    pub enforced : b'.topology_enforced ≡ b.topology_enforced
    pub forwarded : b'.forwarded_packets ≡ b.forwarded_packets
    pub dropped : b'.dropped_packets ≡ b.dropped_packets
    pub moved : b'.route_movement_events ≡ b.route_movement_events
    pub faults : b'.topology_fault_events ≡ b.topology_fault_events

  count_broadcast-SameRoutes :
      (b : NorthbridgeRuntime S) (ingress_port port count : ℕ)
      → SameRoutes b (count_broadcast b ingress_port port count)
  unfolding count_broadcast count_sent
  count_broadcast-SameRoutes b ingress_port port zero = ground arith
  count_broadcast-SameRoutes b ingress_port port (suc count) =
      let b' =
        if port == ingress_port
        then b
        else elim (port_at b port) [ none ↦ b | some _ ↦ count_sent b port ] in
      ground (arith, count_broadcast-SameRoutes b' ingress_port (port + 1) count)

  pub account_forward-SameRoutes :
      (b : NorthbridgeRuntime S) (p : Packet) (ingress_port : ℕ) (success : Bool)
      → SameRoutes b (account_forward b p ingress_port success)
  unfolding account_forward count_sent count_dropped
  account_forward-SameRoutes b p ingress_port success =
      ground (arith, count_broadcast-SameRoutes b ingress_port 0 max_router_ports)

  -- Counting writes to no transport.
  count_broadcast-transports :
      (b : NorthbridgeRuntime S) (ingress_port port count : ℕ)
      → (count_broadcast b ingress_port port count).router ≡ b.router
  unfolding count_broadcast count_sent
  count_broadcast-transports b ingress_port port zero = refl
  count_broadcast-transports b ingress_port port (suc count) =
      let b' =
        if port == ingress_port
        then b
        else elim (port_at b port) [ none ↦ b | some _ ↦ count_sent b port ] in
      ground (arith, count_broadcast-transports b' ingress_port (port + 1) count)

  pub account_forward-transports :
      (b : NorthbridgeRuntime S) (p : Packet) (ingress_port : ℕ) (success : Bool)
      → (account_forward b p ingress_port success).router ≡ b.router
  unfolding account_forward count_sent count_dropped
  account_forward-transports b p ingress_port success =
      ground (arith, count_broadcast-transports b ingress_port 0 max_router_ports)

module _ {S : Type 0} ⦃t : Transport S⦄ where
  pub send_local-SameRoutes :
      (b : NorthbridgeRuntime S) (p : Packet) (egress_port : ℕ)
      → SameRoutes b (send_local b p egress_port).1
  unfolding send_local stamp_local write_frame
  send_local-SameRoutes b p egress_port = ground arith

  pub send_topology_fault-SameRoutes :
      (b : NorthbridgeRuntime S) (address expected_port actual_port : ℕ)
      → SameRoutes b (send_topology_fault b address expected_port actual_port).1
  unfolding send_topology_fault
  send_topology_fault-SameRoutes b address expected_port actual_port =
      let fault = topology_fault_packet b address expected_port actual_port in
      elim (Option-cases (route_for b.router NodeAddress.main_computer)) [
        | inl n ↦ ground (arith, n)
        | inr (pi_port, e) ↦ ground (arith, e, send_local-SameRoutes b fault pi_port)
      ]

  send_device_info-SameRoutes :
      (b : NorthbridgeRuntime S) (destination egress_port : ℕ)
      → SameRoutes b (send_device_info b destination egress_port).1
  unfolding send_device_info
  send_device_info-SameRoutes b destination egress_port = send_local-SameRoutes b _ egress_port

  send_heartbeat-SameRoutes :
      (b : NorthbridgeRuntime S) (destination egress_port : ℕ)
      → SameRoutes b (send_heartbeat b destination egress_port).1
  unfolding send_heartbeat
  send_heartbeat-SameRoutes b destination egress_port = send_local-SameRoutes b _ egress_port

  send_diagnostics-SameRoutes :
      (b : NorthbridgeRuntime S) (destination egress_port : ℕ)
      → SameRoutes b (send_diagnostics b destination egress_port).1
  unfolding send_diagnostics
  send_diagnostics-SameRoutes b destination egress_port =
      ground (arith, send_local-SameRoutes b (diagnostics_packet b destination) egress_port)

  pub acknowledge_local-SameRoutes :
      (b : NorthbridgeRuntime S) (p : Packet) (ingress_port : ℕ)
      → SameRoutes b (acknowledge_local b p ingress_port)
  unfolding acknowledge_local
  acknowledge_local-SameRoutes b p ingress_port =
      let reply : Packet = record empty_packet {
        destination = p.source;
        type = MessageType.ack;
        flags = flag_response;
        sequence = p.sequence;
      } in
      ground (arith, send_local-SameRoutes b reply ingress_port)

  answer_local-SameRoutes :
      (b : NorthbridgeRuntime S) (p : Packet) (ingress_port : ℕ)
      → SameRoutes b (answer_local b p ingress_port).1
  unfolding answer_local
  answer_local-SameRoutes b p ingress_port = ground (
    arith,
    send_device_info-SameRoutes b p.source ingress_port,
    send_heartbeat-SameRoutes b p.source ingress_port,
    send_diagnostics-SameRoutes b p.source ingress_port,
  )

  pub handle_local_packet-SameRoutes :
      (b : NorthbridgeRuntime S) (p : Packet) (ingress_port now_ms : ℕ)
      → SameRoutes b (handle_local_packet b p ingress_port now_ms).1
  unfolding handle_local_packet
  handle_local_packet-SameRoutes b p ingress_port now_ms =
      let b₁ = record b { last_service_ms = now_ms } in
      ground (
        arith,
        acknowledge_local-SameRoutes b₁ p ingress_port,
        answer_local-SameRoutes (acknowledge_local b₁ p ingress_port) p ingress_port,
      )
