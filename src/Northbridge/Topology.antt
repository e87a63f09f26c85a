-- ===== src/Northbridge/Topology.antt =====
-- What happens to a packet at the northbridge.
use motorcycle_computer.Base.{
  ℕ, ◌+◌, ◌≡◌, ◌≢◌, ◌⊎◌, arith, Bool, true, false, not, ◌&&◌, none, some, Option-cases, inl, inr,
  ◌==◌, if◌then◌else◌, u32,
}
use motorcycle_computer.Protocol.Packet.{Packet}
use motorcycle_computer.Protocol.Packet.NodeAddress
use motorcycle_computer.Transport.{Transport}
use motorcycle_computer.Router.{route_for, mark_seen, forward}
use motorcycle_computer.Northbridge.{
  NorthbridgeRuntime, port_at, count_dropped, expected_port_for, change_stats,
}
use motorcycle_computer.Northbridge.Packets.{send_topology_fault, topology_fault_packet}
use motorcycle_computer.Northbridge.Runtime.{route_packet, misplaced_packet, handle_packet}
use motorcycle_computer.Northbridge.Transports.{send_local-transports, route_packet-transports}
use motorcycle_computer.Northbridge.Setup.{
  account_forward-SameRoutes, send_topology_fault-SameRoutes, handle_local_packet-SameRoutes,
}

module _ {S : Type 0} ⦃t : Transport S⦄ where
  -- The packet came in on another port than its source is bound to.
  abbrev pub is_misplaced : NorthbridgeRuntime S → Packet → ℕ → Bool
  is_misplaced b p port = elim (expected_port_for b p.source) [
    | none ↦ false
    | some expected_port ↦ not (expected_port == port)
  ]

  send_topology_fault-transports :
      (b : NorthbridgeRuntime S) (address expected_port actual_port pi_port k : ℕ)
      → (route_for b.router NodeAddress.main_computer ≡ none)
        ⊎ (route_for b.router NodeAddress.main_computer ≡ some pi_port)
      → port_at b pi_port ≢ some k
      → (send_topology_fault b address expected_port actual_port).1.router.transports k
        ≡ b.router.transports k
  unfolding send_topology_fault
  send_topology_fault-transports b address expected_port actual_port pi_port k route other =
      let fault = topology_fault_packet b address expected_port actual_port in
      ground (arith, send_local-transports b fault pi_port k)

  misplaced_packet-dropped :
      (b : NorthbridgeRuntime S) (p : Packet) (expected_port port now_ms pi_port k : ℕ)
      → b.topology_enforced ≡ true
      → (route_for b.router NodeAddress.main_computer ≡ none)
        ⊎ (route_for b.router NodeAddress.main_computer ≡ some pi_port)
      → port_at b pi_port ≢ some k
      → let b' = misplaced_packet b p expected_port port now_ms in
        (b'.router.routes ≡ b.router.routes)
        × (b'.router.transports k ≡ b.router.transports k)
        × (b'.forwarded_packets ≡ b.forwarded_packets)
        × (b'.dropped_packets ≡ u32 (b.dropped_packets + 1))
        × (b'.route_movement_events ≡ u32 (b.route_movement_events + 1))
        × (b'.topology_fault_events ≡ u32 (b.topology_fault_events + 1))
  unfolding misplaced_packet count_dropped
  misplaced_packet-dropped b p expected_port port now_ms pi_port k e route other =
      let faulty = record b {
        route_movement_events = u32 (b.route_movement_events + 1);
        topology_fault_events = u32 (b.topology_fault_events + 1);
        dropped_packets = u32 (b.dropped_packets + 1);
      } in
      let counted = count_dropped faulty port in
      ground (
        arith,
        send_topology_fault-SameRoutes counted p.source expected_port port,
        send_topology_fault-transports counted p.source expected_port port pi_port k route other,
      )

  route_packet-counts :
      (b : NorthbridgeRuntime S) (p : Packet) (port now_ms : ℕ)
      → let b' = route_packet b p port now_ms in
        let (done, r) = forward b.router p port now_ms in
        let is_local = p.destination == NodeAddress.northbridge in
        (b'.router.routes
          ≡ (if is_local then mark_seen b.router p.source port now_ms else r).routes)
        × (b'.forwarded_packets
            ≡ (if not is_local && done then u32 (b.forwarded_packets + 1) else b.forwarded_packets))
        × (b'.dropped_packets
            ≡ (if not is_local && not done then u32 (b.dropped_packets + 1) else b.dropped_packets))
        × (b'.route_movement_events ≡ b.route_movement_events)
        × (b'.topology_fault_events ≡ b.topology_fault_events)
  unfolding route_packet
  route_packet-counts b p port now_ms =
      let (done, r) = forward b.router p port now_ms in
      ground (
        arith,
        account_forward-SameRoutes (record b { router = r }) p port done,
        handle_local_packet-SameRoutes
            (record b { router = mark_seen b.router p.source port now_ms }) p port now_ms,
      )

  -- With the topology enforced, a packet on another port than its source is bound to teaches the
  -- router nothing and goes nowhere: the routes stay, the packet counts as dropped, moved and
  -- faulty and not as forwarded, and no transport is written to but that of the port to the main
  -- computer.
  pub handle_packet-misplaced :
      (b : NorthbridgeRuntime S) (p : Packet) (port now_ms pi_port k : ℕ)
      → b.topology_enforced ≡ true
      → is_misplaced b p port ≡ true
      → (route_for b.router NodeAddress.main_computer ≡ none)
        ⊎ (route_for b.router NodeAddress.main_computer ≡ some pi_port)
      → port_at b pi_port ≢ some k
      → let b' = handle_packet b p port now_ms in
        (b'.router.routes ≡ b.router.routes)
        × (b'.router.transports k ≡ b.router.transports k)
        × (b'.forwarded_packets ≡ b.forwarded_packets)
        × (b'.dropped_packets ≡ u32 (b.dropped_packets + 1))
        × (b'.route_movement_events ≡ u32 (b.route_movement_events + 1))
        × (b'.topology_fault_events ≡ u32 (b.topology_fault_events + 1))
  unfolding handle_packet expected_port_for
  handle_packet-misplaced b p port now_ms pi_port k e m route other =
      let b₁ = change_stats b port (λ x. record x { rx_packets = u32 (x.rx_packets + 1) }) in
      elim (Option-cases (expected_port_for b p.source)) [
        | inl n ↦ absurd (ground (arith, n, m))
        | inr (expected_port, q) ↦ ground (
          arith,
          q,
          m,
          misplaced_packet-dropped b₁ p expected_port port now_ms pi_port k e route other,
        )
      ]

  pub handle_packet-routed :
      (b : NorthbridgeRuntime S) (p : Packet) (port now_ms k : ℕ)
      → (b.topology_enforced && is_misplaced b p port) ≡ false
      → let b' = handle_packet b p port now_ms in
        let (done, r) = forward b.router p port now_ms in
        let is_local = p.destination == NodeAddress.northbridge in
        (b'.router.routes
          ≡ (if is_local then mark_seen b.router p.source port now_ms else r).routes)
        × ((b'.router.transports k ≡ (if is_local then b.router else r).transports k)
            ⊎ ((is_local ≡ true) × (port_at b port ≡ some k)))
        × (b'.forwarded_packets
            ≡ (if not is_local && done then u32 (b.forwarded_packets + 1) else b.forwarded_packets))
        × (b'.dropped_packets
            ≡ (if not is_local && not done then u32 (b.dropped_packets + 1) else b.dropped_packets))
        × (b'.route_movement_events ≡ (
            if is_misplaced b p port
            then u32 (b.route_movement_events + 1)
            else b.route_movement_events))
        × (b'.topology_fault_events ≡ b.topology_fault_events)
  unfolding handle_packet expected_port_for misplaced_packet
  handle_packet-routed b p port now_ms k h =
      let b₁ = change_stats b port (λ x. record x { rx_packets = u32 (x.rx_packets + 1) }) in
      let moved = record b₁ { route_movement_events = u32 (b.route_movement_events + 1) } in
      elim (Option-cases (expected_port_for b p.source)) [
        | inl n ↦ ground (
          arith,
          n,
          h,
          route_packet-counts b₁ p port now_ms,
          route_packet-transports b₁ p port now_ms k,
        )
        | inr (expected_port, q) ↦ ground (
          arith,
          q,
          h,
          route_packet-counts b₁ p port now_ms,
          route_packet-counts moved p port now_ms,
          route_packet-transports b₁ p port now_ms k,
          route_packet-transports moved p port now_ms k,
        )
      ]
