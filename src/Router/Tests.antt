-- ===== src/Router/Tests.antt =====
-- Tests of the router with three transports in memory, after tests/network_runtime_test.cpp, and
-- the theorems at concrete routers.
use motorcycle_computer.Base.{
  ℕ, ◌≤◌, zero, suc, get_or, ◌≡◌, ◌≢◌, refl, arith, Option, none, some, List, [], ◌∷◌,
}
use motorcycle_computer.Protocol.Packet.{Packet, max_frame_size}
use motorcycle_computer.Protocol.Packet.NodeAddress
use motorcycle_computer.Protocol.Codec.{encode_packet, encoded_size, frame_body, write_u16_be}
use motorcycle_computer.Protocol.Crc.{crc16_ccitt_false}
use motorcycle_computer.Protocol.Codec.Tests.{left_on, left_on_frame, encode-left_on}
use motorcycle_computer.Node.Tests.{Memory, memory}
use motorcycle_computer.Router.Table.{new_route, empty_route}
use motorcycle_computer.Router.{
  Router, new_router, port_at, attach_port, set_route, route_for, mark_seen, forward, write_to_port,
  assign, touch, put_route,
}
use motorcycle_computer.Router.Routes.{count_routes}
use motorcycle_computer.Router.Delivery.{forward-broadcast, forward-ingress, forward-routed}
use motorcycle_computer.Router.Unique.{here, next, attached, forwarded, Reach-new_router}

abbrev pub quiet : ℕ → Memory
quiet transport = record { rx = []; writes = [] }

-- Ports 0 to 2 are attached to the transports 10 to 12; the lighting node is behind port 1.
abbrev pub three_ports : Router Memory
three_ports = record {
  ports = some 10 ∷ some 11 ∷ some 12 ∷ none ∷ none ∷ none ∷ none ∷ none ∷ [];
  routes = new_route NodeAddress.lighting 1 ∷ empty_route ∷ empty_route ∷ [];
  transports = quiet;
}

no_pointer :
    (j : ℕ) → get_or {A = Option ℕ} (none ∷ none ∷ none ∷ none ∷ none ∷ []) j none ≢ some 12
no_pointer j = ground arith

alone_on_port : (j : ℕ) → port_at three_ports j ≡ some 12 → j ≡ 2
alone_on_port zero q = absurd (ground (arith, q))
alone_on_port (suc zero) q = absurd (ground (arith, q))
alone_on_port (suc (suc zero)) q = refl
alone_on_port (suc (suc (suc j))) q = absurd (ground (arith, q, no_pointer j))

-- A command to the lighting node goes from port 0 to port 1, and teaches where the sender is.
forward-left_on :
    let r = (forward three_ports left_on 0 500).1 in
    ((r.transports 11).writes ≡ left_on_frame ∷ [])
    × ((r.transports 12).writes ≡ [])
    × (route_for r NodeAddress.main_computer ≡ some 0)
unfolding forward mark_seen set_route put_route touch route_for write_to_port assign encode_packet
    encoded_size frame_body write_u16_be crc16_ccitt_false
forward-left_on = (refl, refl, refl)

abbrev broadcast_left_on : Packet
broadcast_left_on = record left_on { destination = NodeAddress.broadcast }

abbrev pub broadcast_frame : List ℕ
broadcast_frame = 0xA5 ∷ 0x5A ∷ 1 ∷ 1 ∷ 0xFF ∷ 0x20 ∷ 1 ∷ 0x12 ∷ 0x34 ∷ 2 ∷ 1 ∷ 1 ∷ 0x8D ∷ 0x42 ∷ []

forward-ingress_example : (forward three_ports broadcast_left_on 2 500).1.transports 12 ≡ quiet 12
forward-ingress_example = forward-ingress three_ports broadcast_left_on 2 500 12 alone_on_port

forward-routed_example :
    let written = memory.write (quiet 11) left_on_frame in
    ((forward three_ports left_on 0 500).0 ≡ written.0)
    × ((forward three_ports left_on 0 500).1.transports 11 ≡ written.1)
unfolding route_for
forward-routed_example =
    forward-routed three_ports left_on 0 500 1 11 11 left_on_frame (omega arith) (omega arith)
      encode-left_on (omega arith) refl (omega arith) refl

Reach-new_router_example :
    count_routes NodeAddress.lighting
      (forward (attach_port (new_router quiet) 1 11).1 left_on 1 500).1.routes
    ≤ 1
unfolding attach_port
Reach-new_router_example =
    Reach-new_router quiet (forward (attach_port (new_router quiet) 1 11).1 left_on 1 500).1
      NodeAddress.lighting (next (next here (attached 1 11)) (forwarded left_on 1 500))

encode-broadcast : encode_packet broadcast_left_on (some max_frame_size) ≡ some broadcast_frame
unfolding encode_packet encoded_size frame_body write_u16_be crc16_ccitt_false
encode-broadcast = refl

forward-broadcast_example :
    (forward three_ports broadcast_left_on 0 500).1.transports 12
    ≡ (memory.write (quiet 12) broadcast_frame).1
forward-broadcast_example =
    forward-broadcast three_ports broadcast_left_on 0 500 2 12 broadcast_frame refl encode-broadcast
      refl alone_on_port
