-- ===== src/Northbridge/Pinned.antt =====
-- The routes of the nodes that are bound to a port.
use motorcycle_computer.Base.{
  ℕ, ◌+◌, zero, suc, ◌≡◌, ◌∙◌, refl, sym, arith, true, some, List, [], ◌∷◌, Option-cases,
  Bool-cases, inl, inr, get_or, set, length, u32, if◌then◌else◌,
}
use motorcycle_computer.Protocol.Packet.{Packet, empty_packet}
use motorcycle_computer.Transport.{Transport}
use motorcycle_computer.StreamParser.{push, new_parser}
use motorcycle_computer.Router.{Router, route_for, mark_seen, forward, assign}
use motorcycle_computer.Router.Lookup.{mark_seen-lookups}
use motorcycle_computer.Router.Delivery.{forward-SameTables}
use motorcycle_computer.Northbridge.{
  NorthbridgeRuntime, port_at, expected_port_for, change_stats, count_dropped,
}
use motorcycle_computer.Northbridge.Runtime.{
  handle_packet, handle_bytes, service_port, service_from, service, misplaced_packet, route_packet,
  count_malformed, port_chunk_size,
}
use motorcycle_computer.Northbridge.Setup.{
  account_forward-SameRoutes, send_topology_fault-SameRoutes, handle_local_packet-SameRoutes,
}
use motorcycle_computer.Northbridge.Topology.{handle_packet-routed, is_misplaced}

module _ {S : Type 0} where
  -- The topology is enforced, and the route of every bound node leads to its port.
  pub record IsPinned (b : NorthbridgeRuntime S) : Type 0 where
    pub enforced : b.topology_enforced ≡ true
    pub routed :
        (address port : ℕ)
        → expected_port_for b address ≡ some port
        → route_for b.router address ≡ some port

  -- Two states with the same bindings and ports.
  pub record SameBindings (b b' : NorthbridgeRuntime S) : Type 0 where
    pub bindings : b'.bindings ≡ b.bindings
    pub ports : b'.ports ≡ b.ports
    pub enforced : b'.topology_enforced ≡ b.topology_enforced

  route_for-routes :
      (r r' : Router S) (address : ℕ)
      → r'.routes ≡ r.routes
      → route_for r' address ≡ route_for r address
  unfolding route_for
  route_for-routes r r' address e = rw e refl

  expected_port_for-bindings :
      (b b' : NorthbridgeRuntime S) (address : ℕ)
      → b'.bindings ≡ b.bindings
      → expected_port_for b' address ≡ expected_port_for b address
  unfolding expected_port_for
  expected_port_for-bindings b b' address e = rw e refl

  -- The same bindings and routes keep the nodes pinned.
  same-IsPinned :
      (b b' : NorthbridgeRuntime S)
      → SameBindings b b'
      → b'.router.routes ≡ b.router.routes
      → IsPinned b
      → IsPinned b'
  same-IsPinned b b' s e v = record {
    enforced = s.enforced ∙ v.enforced;
    routed = λ address port q.
        route_for-routes b.router b'.router address e
        ∙ v.routed address port (sym (expected_port_for-bindings b b' address s.bindings) ∙ q);
  }

module _ {S : Type 0} ⦃t : Transport S⦄ where
  route_packet-SameBindings :
      (b : NorthbridgeRuntime S) (p : Packet) (port now_ms : ℕ)
      → SameBindings b (route_packet b p port now_ms)
  unfolding route_packet
  route_packet-SameBindings b p port now_ms =
      let (done, r) = forward b.router p port now_ms in
      ground (
        arith,
        account_forward-SameRoutes (record b { router = r }) p port done,
        handle_local_packet-SameRoutes
            (record b { router = mark_seen b.router p.source port now_ms }) p port now_ms,
      )

  handle_packet-SameBindings :
      (b : NorthbridgeRuntime S) (p : Packet) (port now_ms : ℕ)
      → SameBindings b (handle_packet b p port now_ms)
  unfolding handle_packet misplaced_packet count_dropped
  handle_packet-SameBindings b p port now_ms =
      let b₁ = change_stats b port (λ x. record x { rx_packets = u32 (x.rx_packets + 1) }) in
      let moved = record b₁ { route_movement_events = u32 (b.route_movement_events + 1) } in
      let faulty = record moved {
        topology_fault_events = u32 (b.topology_fault_events + 1);
        dropped_packets = u32 (b.dropped_packets + 1);
      } in
      elim (Option-cases (expected_port_for b₁ p.source)) [
        | inl n ↦ ground (arith, n, route_packet-SameBindings b₁ p port now_ms)
        | inr (expected_port, q) ↦ ground (
          arith,
          q,
          route_packet-SameBindings b₁ p port now_ms,
          route_packet-SameBindings moved p port now_ms,
          send_topology_fault-SameRoutes (count_dropped faulty port) p.source expected_port port,
        )
      ]

  -- The routes after a packet, while the topology is enforced.
  handle_packet-routes :
      (b : NorthbridgeRuntime S) (p : Packet) (port now_ms : ℕ)
      → b.topology_enforced ≡ true
      → (handle_packet b p port now_ms).router.routes ≡ (
          if is_misplaced b p port
          then b.router.routes
          else (mark_seen b.router p.source port now_ms).routes)
  unfolding handle_packet misplaced_packet count_dropped expected_port_for
  handle_packet-routes b p port now_ms e =
      let b₁ = change_stats b port (λ x. record x { rx_packets = u32 (x.rx_packets + 1) }) in
      let faulty = record b₁ {
        route_movement_events = u32 (b.route_movement_events + 1);
        topology_fault_events = u32 (b.topology_fault_events + 1);
        dropped_packets = u32 (b.dropped_packets + 1);
      } in
      elim (Option-cases (expected_port_for b p.source)) [
        | inl n ↦ ground (
          arith,
          n,
          e,
          forward-SameTables b.router p port now_ms,
          handle_packet-routed b p port now_ms 0,
        )
        | inr (expected_port, q) ↦ ground (
          arith,
          q,
          e,
          forward-SameTables b.router p port now_ms,
          handle_packet-routed b p port now_ms 0,
          send_topology_fault-SameRoutes (count_dropped faulty port) p.source expected_port port,
        )
      ]

  -- A packet leaves the bound nodes pinned.
  handle_packet-IsPinned :
      (b : NorthbridgeRuntime S) (p : Packet) (port now_ms : ℕ)
      → IsPinned b
      → IsPinned (handle_packet b p port now_ms)
  handle_packet-IsPinned b p port now_ms v =
      let b' = handle_packet b p port now_ms in
      let s = handle_packet-SameBindings b p port now_ms in
      let seen = mark_seen b.router p.source port now_ms in
      record {
        enforced = s.enforced ∙ v.enforced;
        routed = λ address home q.
            let here = sym (expected_port_for-bindings b b' address s.bindings) ∙ q in
            ground (
              arith,
              here,
              v.routed address home here,
              handle_packet-routes b p port now_ms v.enforced,
              route_for-routes b.router b'.router address,
              route_for-routes seen b'.router address,
              mark_seen-lookups b.router p.source port now_ms address 0 0,
            );
      }

  -- What the operations below keep.
  abbrev pub Keeps : NorthbridgeRuntime S → NorthbridgeRuntime S → Type 0
  Keeps b b' = SameBindings b b' × (IsPinned b → IsPinned b')

  pub Keeps-then : {b b' b'' : NorthbridgeRuntime S} → Keeps b b' → Keeps b' b'' → Keeps b b''
  Keeps-then k k' = (
    record {
      bindings = k'.0.bindings ∙ k.0.bindings;
      ports = k'.0.ports ∙ k.0.ports;
      enforced = k'.0.enforced ∙ k.0.enforced;
    },
    λ v. k'.1 (k.1 v),
  )

  pub same-Keeps :
      (b b' : NorthbridgeRuntime S)
      → b'.bindings ≡ b.bindings
      → b'.ports ≡ b.ports
      → b'.topology_enforced ≡ b.topology_enforced
      → b'.router.routes ≡ b.router.routes
      → Keeps b b'
  same-Keeps b b' bindings ports enforced e =
      let s : SameBindings b b' = record {
        bindings = bindings;
        ports = ports;
        enforced = enforced;
      } in
      (s, same-IsPinned b b' s e)

  handle_bytes-Keeps :
      (b : NorthbridgeRuntime S) (bytes : List ℕ) (port now_ms : ℕ)
      → Keeps b (handle_bytes b bytes port now_ms)
  unfolding handle_bytes
  handle_bytes-Keeps b [] port now_ms = same-Keeps b b refl refl refl refl
  handle_bytes-Keeps b (byte ∷ bytes) port now_ms =
      let (got, parser, p) = push (get_or b.parsers port new_parser) byte empty_packet in
      let b' = record b { parsers = set b.parsers port parser } in
      let parsed : Keeps b b' = same-Keeps b b' refl refl refl refl in
      let handled : Keeps b' (handle_packet b' p port now_ms) =
        (handle_packet-SameBindings b' p port now_ms, handle_packet-IsPinned b' p port now_ms) in
      elim (Bool-cases got) [
        | inl y ↦ rw y (
            Keeps-then parsed (
              Keeps-then handled
                (handle_bytes-Keeps (handle_packet b' p port now_ms) bytes port now_ms)))
        | inr n ↦ rw n (Keeps-then parsed (handle_bytes-Keeps b' bytes port now_ms))
      ]

  count_malformed-Keeps : (b : NorthbridgeRuntime S) (port : ℕ) → Keeps b (count_malformed b port)
  unfolding count_malformed
  count_malformed-Keeps b port =
      same-Keeps b (count_malformed b port) (ground arith) (ground arith) (ground arith)
        (ground arith)

  service_port-Keeps :
      (b : NorthbridgeRuntime S) (port now_ms : ℕ) → Keeps b (service_port b port now_ms)
  unfolding service_port
  service_port-Keeps b port now_ms = elim (Option-cases (port_at b port)) [
    | inl n ↦ rw (service_port, n) (same-Keeps b b refl refl refl refl)
    | inr (transport, q) ↦
        let r = b.router in
        let (chunk, state) = t.read (r.transports transport) port_chunk_size in
        let b' = record b {
          router = record r { transports = assign r.transports transport state };
        } in
        let counted =
          change_stats b' port (λ e. record e { rx_bytes = u32 (e.rx_bytes + length chunk) }) in
        rw (service_port, q)
          (Keeps-then (same-Keeps b counted refl refl refl refl) (
            Keeps-then (handle_bytes-Keeps counted chunk port now_ms)
              (count_malformed-Keeps (handle_bytes counted chunk port now_ms) port)))
  ]

  service_from-Keeps :
      (b : NorthbridgeRuntime S) (port count now_ms : ℕ)
      → Keeps b (service_from b port count now_ms)
  unfolding service_from
  service_from-Keeps b port zero now_ms = same-Keeps b b refl refl refl refl
  service_from-Keeps b port (suc count) now_ms =
      Keeps-then (service_port-Keeps b port now_ms)
        (service_from-Keeps (service_port b port now_ms) (port + 1) count now_ms)

  -- With the topology enforced and every bound node's route leading to the port that it is bound
  -- to, a round of the northbridge leaves it so, whatever comes in on its ports, and leaves the
  -- bindings and the ports as they are.
  pub service-Keeps : (b : NorthbridgeRuntime S) (now_ms : ℕ) → Keeps b (service b now_ms)
  unfolding service
  service-Keeps b now_ms =
      let b' = record b { last_service_ms = now_ms } in
      Keeps-then (same-Keeps b b' refl refl refl refl) (service_from-Keeps b' 0 8 now_ms)
