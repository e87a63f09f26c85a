-- ===== src/Northbridge.antt =====
-- library/include/bike/northbridge.hpp and library/src/northbridge.cpp: the state of
-- `NorthbridgeRuntime`, its set-up and the packets that it sends itself.
--
-- `transports_` and the router's `ports_` hold pointers into one store of transports, the router's.
pub mod Packets
pub mod Runtime
pub mod Setup
pub mod Topology
pub mod Transports
pub mod Pinned
pub mod Platform
pub mod Diagnostics
pub mod PortBytes
pub mod PortLoop
pub mod Tests
use motorcycle_computer.Base.{
  ℕ, ◌+◌, Bool, true, false, not, ◌&&◌, Option, none, some, List, [], ◌∷◌, get_or, set, replicate,
  leb, u16, u32, ◌==◌, if◌then◌else◌,
}
use motorcycle_computer.Protocol.Packet.{Packet, max_frame_size}
use motorcycle_computer.Protocol.Packet.NodeAddress
use motorcycle_computer.Protocol.Codec.{encode_packet}
use motorcycle_computer.StreamParser.{StreamParser, new_parser}
use motorcycle_computer.Transport.{Transport}
use motorcycle_computer.Router
use motorcycle_computer.Router.{Router, new_router, max_router_ports, assign}

pub record NorthbridgePortStats : Type 0 where
  pub rx_bytes : ℕ
  pub rx_packets : ℕ
  pub tx_packets : ℕ
  pub dropped_packets : ℕ
  pub malformed_frames : ℕ

-- `kEmptyStats`.
abbrev pub empty_stats : NorthbridgePortStats
empty_stats = record {
  rx_bytes = 0;
  rx_packets = 0;
  tx_packets = 0;
  dropped_packets = 0;
  malformed_frames = 0;
}

pub record TopologyBinding : Type 0 where
  pub address : ℕ
  pub port : ℕ
  pub active : Bool

-- `TopologyBinding{}`.
abbrev pub empty_binding : TopologyBinding
empty_binding = record { address = NodeAddress.broadcast; port = 0; active = false }

pub record NorthbridgeRuntime (S : Type 0) : Type 0 where
  pub router : Router S
  pub ports : List (Option ℕ)
  pub parsers : List StreamParser
  pub port_stats : List NorthbridgePortStats
  pub bindings : List TopologyBinding
  pub parser_reject_snapshot : List ℕ
  pub forwarded_packets : ℕ
  pub dropped_packets : ℕ
  pub route_movement_events : ℕ
  pub topology_fault_events : ℕ
  pub last_service_ms : ℕ
  pub local_sequence : ℕ
  pub topology_enforced : Bool
  pub is_undefined : Bool

-- The members' initial values.
abbrev pub new_runtime : {S : Type 0} → (ℕ → S) → NorthbridgeRuntime S
new_runtime transports = record {
  router = new_router transports;
  ports = replicate max_router_ports none;
  parsers = replicate max_router_ports new_parser;
  port_stats = replicate max_router_ports empty_stats;
  bindings = replicate max_router_ports empty_binding;
  parser_reject_snapshot = replicate max_router_ports 0;
  forwarded_packets = 0;
  dropped_packets = 0;
  route_movement_events = 0;
  topology_fault_events = 0;
  last_service_ms = 0;
  local_sequence = 1;
  topology_enforced = false;
  is_undefined = false;
}

-- `binding.active && binding.address == address`.
abbrev pub is_binding : ℕ → TopologyBinding → Bool
is_binding address e = e.active && e.address == address

-- The first loop of `bind_node`: `none` where it finds no binding.
abbrev pub move_binding : ℕ → ℕ → List TopologyBinding → Option (List TopologyBinding)
move_binding address port [] = none
move_binding address port (e ∷ es) =
    let rest = move_binding address port es in
    if is_binding address e
    then some (record e { port = port } ∷ es)
    else elim rest [ none ↦ none | some moved ↦ some (e ∷ moved) ]

-- The second loop, which fills an inactive binding.
abbrev pub add_binding : ℕ → ℕ → List TopologyBinding → Option (List TopologyBinding)
add_binding address port [] = none
add_binding address port (e ∷ es) =
    let rest = add_binding address port es in
    if not e.active
    then some (record { address = address; port = port; active = true } ∷ es)
    else elim rest [ none ↦ none | some added ↦ some (e ∷ added) ]

-- The loop of `expected_port_for`; `none` stands for -1.
abbrev pub find_binding : ℕ → List TopologyBinding → Option ℕ
find_binding address [] = none
find_binding address (e ∷ es) =
    if is_binding address e then some e.port else find_binding address es

module _ {S : Type 0} where
  -- The pointer of a port in range that is not null.
  abbrev pub port_at : NorthbridgeRuntime S → ℕ → Option ℕ
  port_at b port = if leb max_router_ports port then none else get_or b.ports port none

  unfoldable pub attach_port : NorthbridgeRuntime S → ℕ → ℕ → Bool × NorthbridgeRuntime S
  attach_port b port transport =
      let (done, r) = Router.attach_port b.router port transport in
      if leb max_router_ports port
      then (false, b)
      else (done, record b { ports = set b.ports port (some transport); router = r })

  unfoldable pub set_route : NorthbridgeRuntime S → ℕ → ℕ → Bool × NorthbridgeRuntime S
  set_route b address port =
      let (done, r) = Router.set_route b.router address port in (done, record b { router = r })

  unfoldable pub bind_node : NorthbridgeRuntime S → ℕ → ℕ → Bool × NorthbridgeRuntime S
  unfolding set_route
  bind_node b address port = elim (port_at b port) [
    | none ↦ (false, b)
    | some _ ↦ elim (move_binding address port b.bindings) [
      | some moved ↦ set_route (record b { bindings = moved }) address port
      | none ↦ elim (add_binding address port b.bindings) [
        | some added ↦ set_route (record b { bindings = added }) address port
        | none ↦ (false, b)
      ]
    ]
  ]

  unfoldable pub set_topology_enforced : NorthbridgeRuntime S → Bool → NorthbridgeRuntime S
  set_topology_enforced b enabled = record b { topology_enforced = enabled }

  unfoldable pub expected_port_for : NorthbridgeRuntime S → ℕ → Option ℕ
  expected_port_for b address = find_binding address b.bindings

  unfoldable pub port_stats : NorthbridgeRuntime S → ℕ → NorthbridgePortStats
  port_stats b port =
      if leb max_router_ports port then empty_stats else get_or b.port_stats port empty_stats

  -- A change of one element of `port_stats_`.
  abbrev pub change_stats :
      NorthbridgeRuntime S
      → ℕ
      → (NorthbridgePortStats → NorthbridgePortStats)
      → NorthbridgeRuntime S
  change_stats b port change = record b {
    port_stats = set b.port_stats port (change (get_or b.port_stats port empty_stats));
  }

  -- `++port_stats_[port].tx_packets` and `++port_stats_[port].dropped_packets`.
  unfoldable pub count_sent : NorthbridgeRuntime S → ℕ → NorthbridgeRuntime S
  count_sent b port = change_stats b port (λ e. record e { tx_packets = u32 (e.tx_packets + 1) })

  unfoldable pub count_dropped : NorthbridgeRuntime S → ℕ → NorthbridgeRuntime S
  count_dropped b port =
      change_stats b port (λ e. record e { dropped_packets = u32 (e.dropped_packets + 1) })

  -- The first lines of `send_local`: the source, and a sequence number where there is none.
  unfoldable pub stamp_local : NorthbridgeRuntime S → Packet → Packet × NorthbridgeRuntime S
  stamp_local b p =
      let next = u16 (b.local_sequence + 1) in
      let q = record p { source = NodeAddress.northbridge } in
      if p.sequence == 0
      then (
        record q { sequence = b.local_sequence },
        record b { local_sequence = if next == 0 then 1 else next },
      )
      else (q, b)

module _ {S : Type 0} ⦃t : Transport S⦄ where
  -- `transports_[egress_port]->write(...)` and the count, for an encoded packet.
  unfoldable pub write_frame : NorthbridgeRuntime S → ℕ → ℕ → List ℕ → Bool × NorthbridgeRuntime S
  unfolding count_sent
  write_frame b egress_port transport frame =
      let r = b.router in
      let (sent, state) = t.write (r.transports transport) frame in
      let b' = record b {
        router = record r { transports = assign r.transports transport state };
      } in
      (sent, if sent then count_sent b' egress_port else b')

  unfoldable pub send_local : NorthbridgeRuntime S → Packet → ℕ → Bool × NorthbridgeRuntime S
  send_local b p egress_port = elim (port_at b egress_port) [
    | none ↦ (false, b)
    | some transport ↦
        let (q, b') = stamp_local b p in
        elim (encode_packet q (some max_frame_size)) [
          | none ↦ (false, b')
          | some frame ↦ write_frame b' egress_port transport frame
        ]
  ]
