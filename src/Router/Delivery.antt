-- ===== src/Router/Delivery.antt =====
-- Where the router writes a packet.
use motorcycle_computer.Base.{
  ℕ, ◌+◌, ◌<◌, zero, suc, ◌≡◌, ◌≢◌, ◌⊎◌, inl, inr, refl, ap, sym, ltb, ◌∙◌, arith, Bool, false, not,
  ◌&&◌, some, List, ◌==◌, leb, if◌then◌else◌, Option-cases,
}
use motorcycle_computer.Protocol.Packet.{Packet, max_frame_size}
use motorcycle_computer.Protocol.Packet.NodeAddress
use motorcycle_computer.Protocol.Codec.{encode_packet}
use motorcycle_computer.Transport.{Transport}
use motorcycle_computer.Router.Lookup.{mark_seen-lookups}
use motorcycle_computer.Router.{
  Router, max_router_ports, port_at, assign, write_to_port, broadcast_to, broadcast_from, forward,
  mark_seen, route_for, set_route, touch,
}

-- Two routers that differ in the transports' states only.
pub record SameTables {S : Type 0} (r r' : Router S) : Type 0 where
  pub ports : r'.ports ≡ r.ports
  pub routes : r'.routes ≡ r.routes

module _ {S : Type 0} ⦃t : Transport S⦄ where
  write_to_port-SameTables :
      (r : Router S) (port : ℕ) (p : Packet) → SameTables r (write_to_port r port p).1
  unfolding write_to_port
  write_to_port-SameTables r port p = ground arith

  broadcast_to-SameTables :
      (q : Bool × Router S) (p : Packet) (ingress_port port : ℕ)
      → SameTables q.1 (broadcast_to q p ingress_port port).1
  unfolding broadcast_to
  broadcast_to-SameTables q p ingress_port port =
      ground (arith, write_to_port-SameTables q.1 port p)

  broadcast_from-SameTables :
      (q : Bool × Router S) (p : Packet) (ingress_port port count : ℕ)
      → SameTables q.1 (broadcast_from q p ingress_port port count).1
  unfolding broadcast_from
  broadcast_from-SameTables q p ingress_port port zero = record { ports = refl; routes = refl }
  broadcast_from-SameTables q p ingress_port port (suc count) =
      let q' = broadcast_to q p ingress_port port in
      ground (
        arith,
        broadcast_to-SameTables q p ingress_port port,
        broadcast_from-SameTables q' p ingress_port (port + 1) count,
      )

  pub forward-SameTables :
      (r : Router S) (p : Packet) (ingress_port now_ms : ℕ)
      → SameTables (mark_seen r p.source ingress_port now_ms) (forward r p ingress_port now_ms).1
  unfolding forward
  forward-SameTables r p ingress_port now_ms =
      let seen = mark_seen r p.source ingress_port now_ms in
      elim (Option-cases (route_for seen p.destination)) [
        | inl n ↦
            ground
              (arith, broadcast_from-SameTables (false, seen) p ingress_port 0 max_router_ports)
        | inr (port, e) ↦ ground (
          arith,
          broadcast_from-SameTables (false, seen) p ingress_port 0 max_router_ports,
          write_to_port-SameTables seen port p,
        )
      ]

  mark_seen-transports :
      (r : Router S) (address port now_ms : ℕ)
      → (mark_seen r address port now_ms).transports ≡ r.transports
  unfolding mark_seen set_route touch
  mark_seen-transports r address port now_ms = ground arith

  -- One port's transport, after a write to it or to another.
  write_to_port-transport :
      (r : Router S) (port transport : ℕ) (p : Packet)
      → ((write_to_port r port p).1.transports transport ≡ r.transports transport)
        ⊎ (port_at r port ≡ some transport)
  unfolding write_to_port assign
  write_to_port-transport r port transport p = ground arith

  port_at-same : (r r' : Router S) (port : ℕ) → SameTables r r' → port_at r' port ≡ port_at r port
  port_at-same r r' port s = rw s.ports refl

  -- A transport that only the port `out` points to is written to in that port's round only.
  broadcast_to-transport :
      (q : Bool × Router S) (p : Packet) (ingress_port port out transport : ℕ) (frame : List ℕ)
      → encode_packet p (some max_frame_size) ≡ some frame
      → port_at q.1 out ≡ some transport
      → ((j : ℕ) → port_at q.1 j ≡ some transport → j ≡ out)
      → (broadcast_to q p ingress_port port).1.transports transport ≡ (
          if port == out && not (out == ingress_port)
          then (t.write (q.1.transports transport) frame).1
          else q.1.transports transport)
  unfolding broadcast_to write_to_port assign
  broadcast_to-transport q p ingress_port port out transport frame e o alone =
      ground (arith, e, o, alone port)

  broadcast_from-transport :
      (q : Bool × Router S) (p : Packet) (ingress_port port count out transport : ℕ)
      (frame : List ℕ)
      → encode_packet p (some max_frame_size) ≡ some frame
      → port_at q.1 out ≡ some transport
      → ((j : ℕ) → port_at q.1 j ≡ some transport → j ≡ out)
      → (broadcast_from q p ingress_port port count).1.transports transport ≡ (
          if leb port out && ltb out (port + count) && not (out == ingress_port)
          then (t.write (q.1.transports transport) frame).1
          else q.1.transports transport)
  unfolding broadcast_from
  broadcast_from-transport q p ingress_port port zero out transport frame e o alone = ground arith
  broadcast_from-transport q p ingress_port port (suc count) out transport frame e o alone =
      let q' = broadcast_to q p ingress_port port in
      let same =
        λ (j : ℕ). port_at-same q.1 q'.1 j (broadcast_to-SameTables q p ingress_port port) in
      ground (
        arith,
        broadcast_to-transport q p ingress_port port out transport frame e o alone,
        broadcast_from-transport q' p ingress_port (port + 1) count out transport frame e
            (same out ∙ o) (λ j h. alone j (sym (same j) ∙ h)),
      )

  port_at-lt :
      (r : Router S) (port transport : ℕ)
      → port_at r port ≡ some transport
      → port < max_router_ports
  port_at-lt r port transport h = ground arith

  port_at-mark_seen :
      (r : Router S) (address port now_ms j : ℕ)
      → port_at (mark_seen r address port now_ms) j ≡ port_at r j
  unfolding mark_seen set_route touch
  port_at-mark_seen r address port now_ms j = ground arith

  -- A broadcast is written exactly once, as the encoded packet, to every attached port but the one
  -- it came from. The port's transport is to be no other port's.
  pub forward-broadcast :
      (r : Router S) (p : Packet) (ingress_port now_ms out transport : ℕ) (frame : List ℕ)
      → p.destination ≡ NodeAddress.broadcast
      → encode_packet p (some max_frame_size) ≡ some frame
      → port_at r out ≡ some transport
      → ((j : ℕ) → port_at r j ≡ some transport → j ≡ out)
      → (forward r p ingress_port now_ms).1.transports transport ≡ (
          if out == ingress_port
          then r.transports transport
          else (t.write (r.transports transport) frame).1)
  unfolding forward
  forward-broadcast r p ingress_port now_ms out transport frame d e o alone =
      let seen = mark_seen r p.source ingress_port now_ms in
      let same = λ (j : ℕ). port_at-mark_seen r p.source ingress_port now_ms j in
      ground (
        arith,
        d,
        port_at-lt r out transport o,
        ap (λ f. f transport) (mark_seen-transports r p.source ingress_port now_ms),
        broadcast_from-transport (false, seen) p ingress_port 0 max_router_ports out transport frame
            e (same out ∙ o) (λ j h. alone j (sym (same j) ∙ h)),
      )

  broadcast_to-ingress :
      (q : Bool × Router S) (p : Packet) (ingress_port port transport : ℕ)
      → ((j : ℕ) → port_at q.1 j ≡ some transport → j ≡ ingress_port)
      → (broadcast_to q p ingress_port port).1.transports transport ≡ q.1.transports transport
  unfolding broadcast_to
  broadcast_to-ingress q p ingress_port port transport alone =
      ground (arith, alone port, write_to_port-transport q.1 port transport p)

  broadcast_from-ingress :
      (q : Bool × Router S) (p : Packet) (ingress_port port count transport : ℕ)
      → ((j : ℕ) → port_at q.1 j ≡ some transport → j ≡ ingress_port)
      → (broadcast_from q p ingress_port port count).1.transports transport
        ≡ q.1.transports transport
  unfolding broadcast_from
  broadcast_from-ingress q p ingress_port port zero transport alone = refl
  broadcast_from-ingress q p ingress_port port (suc count) transport alone =
      let q' = broadcast_to q p ingress_port port in
      let same =
        λ (j : ℕ). port_at-same q.1 q'.1 j (broadcast_to-SameTables q p ingress_port port) in
      broadcast_from-ingress q' p ingress_port (port + 1) count transport
        (λ j h. alone j (sym (same j) ∙ h))
      ∙ broadcast_to-ingress q p ingress_port port transport alone

  -- No packet, whatever its destination, is written to a transport that at most the port it came
  -- from points to.
  pub forward-ingress :
      (r : Router S) (p : Packet) (ingress_port now_ms transport : ℕ)
      → ((j : ℕ) → port_at r j ≡ some transport → j ≡ ingress_port)
      → (forward r p ingress_port now_ms).1.transports transport ≡ r.transports transport
  unfolding forward
  forward-ingress r p ingress_port now_ms transport alone =
      let seen = mark_seen r p.source ingress_port now_ms in
      let same = λ (j : ℕ). port_at-mark_seen r p.source ingress_port now_ms j in
      let kept = ap (λ f. f transport) (mark_seen-transports r p.source ingress_port now_ms) in
      let cast_out =
        broadcast_from-ingress (false, seen) p ingress_port 0 max_router_ports transport
          (λ j h. alone j (sym (same j) ∙ h)) in
      elim (Option-cases (route_for seen p.destination)) [
        | inl n ↦ ground (arith, n, kept, cast_out)
        | inr (port, e) ↦ ground (
          arith,
          e,
          kept,
          cast_out,
          same port,
          alone port,
          write_to_port-transport seen port transport p,
        )
      ]

  write_to_port-write :
      (r : Router S) (port out k : ℕ) (p : Packet) (frame : List ℕ)
      → encode_packet p (some max_frame_size) ≡ some frame
      → port_at r port ≡ some out
      → let written = t.write (r.transports out) frame in
        ((write_to_port r port p).0 ≡ written.0)
        × ((write_to_port r port p).1.transports k
            ≡ (if k == out then written.1 else r.transports k))
  unfolding write_to_port assign
  write_to_port-write r port out k p frame e o = ground (arith, e, o)

  -- A packet to a node with a route through another attached port is written once to that port's
  -- transport and to no other, and the answer is that of the write.
  pub forward-routed :
      (r : Router S) (p : Packet) (ingress_port now_ms port out k : ℕ) (frame : List ℕ)
      → p.destination ≢ NodeAddress.northbridge
      → p.destination ≢ NodeAddress.broadcast
      → encode_packet p (some max_frame_size) ≡ some frame
      → p.destination ≢ p.source
      → route_for r p.destination ≡ some port
      → port ≢ ingress_port
      → port_at r port ≡ some out
      → let written = t.write (r.transports out) frame in
        ((forward r p ingress_port now_ms).0 ≡ written.0)
        × ((forward r p ingress_port now_ms).1.transports k
            ≡ (if k == out then written.1 else r.transports k))
  unfolding forward
  forward-routed r p ingress_port now_ms port out k frame nn nb e ns f ni o =
      let seen = mark_seen r p.source ingress_port now_ms in
      let kept = mark_seen-transports r p.source ingress_port now_ms in
      ground (
        arith,
        nn,
        nb,
        ns,
        f,
        ni,
        o,
        mark_seen-lookups r p.source ingress_port now_ms p.destination 0 0,
        ap (λ f. f out) kept,
        ap (λ f. f k) kept,
        port_at-mark_seen r p.source ingress_port now_ms port,
        write_to_port-write seen port out k p frame e,
      )
