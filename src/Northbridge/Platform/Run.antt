-- ===== src/Northbridge/Platform/Run.antt =====
-- The northbridge board from `setup` on, round after round of `loop`.
use motorcycle_computer.Base.{
  ℕ, ◌+◌, ◌≡◌, ◌≢◌, ◌∙◌, refl, arith, true, Option, none, some, List, [], ◌∷◌, replicate, inr, u32,
  ◌==◌, if◌then◌else◌,
}
use motorcycle_computer.Protocol.Packet.{Packet}
use motorcycle_computer.Protocol.Packet.NodeAddress
use motorcycle_computer.Arduino.{HardwareSerial, ArduinoSerialTransport, serial_transport}
use motorcycle_computer.Router
use motorcycle_computer.Router.{Router, route_for, put_route}
use motorcycle_computer.Router.Table.{new_route, empty_route}
use motorcycle_computer.Northbridge
use motorcycle_computer.Northbridge.{
  NorthbridgeRuntime, TopologyBinding, empty_binding, attach_port, bind_node, set_topology_enforced,
  expected_port_for, port_at,
}
use motorcycle_computer.Northbridge.Runtime.{handle_packet}
use motorcycle_computer.Northbridge.Topology.{is_misplaced, handle_packet-misplaced}
use motorcycle_computer.Northbridge.Pinned.{IsPinned, Keeps, Keeps-then, same-Keeps, service-Keeps}
use motorcycle_computer.Northbridge.Platform.{setup, loop}

-- Where the nodes are wired to.
unfoldable pub home : ℕ → Option ℕ
home address =
    if address == NodeAddress.main_computer
    then some 0
    else if address == NodeAddress.diagnostic_computer
    then some 0
    else if address == NodeAddress.lighting
    then some 1
    else if address == NodeAddress.security
    then some 2
    else none

home-main : home NodeAddress.main_computer ≡ some 0
unfolding home
home-main = refl

abbrev binding : ℕ → ℕ → TopologyBinding
binding address port = record { address = address; port = port; active = true }

module _ {P : Type 0} ⦃hs : HardwareSerial P⦄ where
  setup-tables :
      (pi lighting security : P)
      → let b = setup pi lighting security in
        (b.bindings
          ≡ binding NodeAddress.main_computer 0
            ∷ binding NodeAddress.diagnostic_computer 0
            ∷ binding NodeAddress.lighting 1
            ∷ binding NodeAddress.security 2
            ∷ replicate 4 empty_binding)
        × (b.ports ≡ some 0 ∷ some 1 ∷ some 2 ∷ replicate 5 none)
        × (b.topology_enforced ≡ true)
        × (b.router.routes
            ≡ new_route NodeAddress.main_computer 0
              ∷ new_route NodeAddress.diagnostic_computer 0
              ∷ new_route NodeAddress.lighting 1
              ∷ new_route NodeAddress.security 2
              ∷ replicate 4 empty_route)
  unfolding setup attach_port bind_node set_topology_enforced Northbridge.set_route
      Router.attach_port Router.set_route put_route
  setup-tables pi lighting security = (refl, refl, refl, refl)

  setup-IsPinned : (pi lighting security : P) → IsPinned (setup pi lighting security)
  unfolding expected_port_for route_for
  setup-IsPinned pi lighting security = record {
    enforced = (setup-tables pi lighting security).2;
    routed = λ address port q. ground (arith, setup-tables pi lighting security, q);
  }

-- What comes in on the ports before a round, and the time of the round.
pub record Arrival (P : Type 0) : Type 0 where
  pub arrive : ℕ → P → P
  pub now_ms : ℕ

module _ {P : Type 0} where
  abbrev pub fill :
      NorthbridgeRuntime (ArduinoSerialTransport P)
      → Arrival P
      → NorthbridgeRuntime (ArduinoSerialTransport P)
  fill b a =
      let r = b.router in
      record b {
        router = record r {
          transports = λ k. record { serial = a.arrive k (r.transports k).serial };
        };
      }

module _ {P : Type 0} ⦃hs : HardwareSerial P⦄ where
  -- The rounds.
  pub run_loop :
      NorthbridgeRuntime (ArduinoSerialTransport P)
      → List (Arrival P)
      → NorthbridgeRuntime (ArduinoSerialTransport P)
  run_loop b [] = b
  run_loop b (a ∷ arrivals) = run_loop (loop (fill b a) a.now_ms) arrivals

module _ {P : Type 0} ⦃hs : HardwareSerial P⦄ where
  run_loop-Keeps :
      (b : NorthbridgeRuntime (ArduinoSerialTransport P)) (arrivals : List (Arrival P))
      → Keeps b (run_loop b arrivals)
  unfolding run_loop loop
  run_loop-Keeps b [] = same-Keeps b b refl refl refl refl
  run_loop-Keeps b (a ∷ arrivals) = Keeps-then (same-Keeps b (fill b a) refl refl refl refl) (
      Keeps-then (service-Keeps (fill b a) a.now_ms)
        (run_loop-Keeps (loop (fill b a) a.now_ms) arrivals))

  -- From `setup` on, whatever comes in on the ports of the northbridge board, the topology stays
  -- enforced, exactly the two computers, the lighting and the security controller are expected on a
  -- port, each on that which it is wired to, and the routes to these four lead there.
  pub run_loop-home :
      (pi lighting security : P) (arrivals : List (Arrival P)) (address : ℕ)
      → let b = run_loop (setup pi lighting security) arrivals in
        (b.topology_enforced ≡ true)
        × (expected_port_for b address ≡ home address)
        × ((port : ℕ) → home address ≡ some port → route_for b.router address ≡ some port)
  unfolding expected_port_for home
  run_loop-home pi lighting security arrivals address =
      let k = run_loop-Keeps (setup pi lighting security) arrivals in
      let v = k.1 (setup-IsPinned pi lighting security) in
      let expected : expected_port_for (run_loop (setup pi lighting security) arrivals) address
          ≡ home address =
        ground (arith, k.0.bindings, setup-tables pi lighting security) in
      (v.enforced, expected, λ port q. v.routed address port (expected ∙ q))

  -- After any rounds of the northbridge board, a packet that claims to come from the two computers,
  -- the lighting or the security controller and comes in on another port than that node is wired to
  -- is not passed on: nothing is written to the lighting and the security controller, the routes
  -- stay, and it counts as dropped and not as forwarded.
  pub run_loop-spoofed :
      (pi lighting security : P) (arrivals : List (Arrival P)) (p : Packet)
      (port wired now_ms k : ℕ)
      → home p.source ≡ some wired
      → wired ≢ port
      → k ≢ 0
      → let b = run_loop (setup pi lighting security) arrivals in
        let b' = handle_packet b p port now_ms in
        (b'.router.transports k ≡ b.router.transports k)
        × (b'.router.routes ≡ b.router.routes)
        × (b'.forwarded_packets ≡ b.forwarded_packets)
        × (b'.dropped_packets ≡ u32 (b.dropped_packets + 1))
  run_loop-spoofed pi lighting security arrivals p port wired now_ms k h ne other =
      let start = setup pi lighting security in
      let b = run_loop start arrivals in
      let kept = (run_loop-Keeps start arrivals).0 in
      let (enforced, expected, routed) = run_loop-home pi lighting security arrivals p.source in
      let main = run_loop-home pi lighting security arrivals NodeAddress.main_computer in
      let misplaced : is_misplaced b p port ≡ true = ground (arith, expected, h, ne) in
      let pi_port : port_at b 0 ≡ some 0 =
        ground (arith, kept.ports, setup-tables pi lighting security) in
      let dropped =
        handle_packet-misplaced b p port now_ms 0 k enforced misplaced (inr (main.2 0 home-main))
          (ground (arith, pi_port, other)) in
      (dropped.1, dropped.0, dropped.2, dropped.3)
