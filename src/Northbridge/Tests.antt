-- ===== src/Northbridge/Tests.antt =====
-- The theorems of the northbridge at concrete runtimes, on the transports of the router's tests.
use motorcycle_computer.Base.{
  ℕ, All-get_or, ◌≡◌, inl, refl, arith, ap, true, none, some, List, [], ◌∷◌, replicate, get_or,
}
use motorcycle_computer.Protocol.Packet.{Packet}
use motorcycle_computer.Protocol.Packet.NodeAddress
use motorcycle_computer.Protocol.Codec.Tests.{left_on}
use motorcycle_computer.Node.Tests.{Memory, memory}
use motorcycle_computer.Router.{route_for}
use motorcycle_computer.Router.Tests.{quiet, three_ports}
use motorcycle_computer.MotorcycleComputer.{MotorcycleComputer, dispatch}
use motorcycle_computer.MotorcycleComputer.Published.{from_node}
use motorcycle_computer.MotorcycleComputer.Tests.{seen, computer}
use motorcycle_computer.Northbridge.{
  NorthbridgeRuntime, new_runtime, empty_binding, empty_stats, expected_port_for,
}
use motorcycle_computer.Northbridge.Packets.{diagnostics_packet}
use motorcycle_computer.Northbridge.Runtime.{handle_packet}
use motorcycle_computer.Northbridge.Topology.{handle_packet-misplaced}
use motorcycle_computer.Northbridge.PortBytes.{IsCounters}
use motorcycle_computer.Northbridge.Diagnostics.{dispatch-northbridge_diagnostics}

-- The main computer is bound to port 0, and the topology is enforced.
abbrev bound : NorthbridgeRuntime Memory
bound = record (new_runtime quiet) {
  router = three_ports;
  ports = some 10 ∷ some 11 ∷ some 12 ∷ none ∷ none ∷ none ∷ none ∷ none ∷ [];
  bindings =
      record { address = NodeAddress.main_computer; port = 0; active = true }
      ∷ replicate 7 empty_binding;
  topology_enforced = true;
}

-- A command of the main computer from port 2 does not reach the lighting node on port 1.
handle_packet-misplaced_example :
    (handle_packet bound left_on 2 500).router.transports 11 ≡ quiet 11
unfolding route_for expected_port_for
handle_packet-misplaced_example =
    (handle_packet-misplaced bound left_on 2 500 0 11 refl refl (inl refl)
      (λ e. ground (arith, e))).1

empty_stats-IsCounters : IsCounters empty_stats
empty_stats-IsCounters = record {
  rx_packets_lt = omega arith;
  tx_packets_lt = omega arith;
  rx_bytes_lt = omega arith;
  dropped_packets_lt = omega arith;
  malformed_frames_lt = omega arith;
}

known-IsCounters : (k : ℕ) → IsCounters (get_or bound.port_stats k empty_stats)
known-IsCounters k = All-get_or IsCounters bound.port_stats k empty_stats empty_stats-IsCounters (
  empty_stats-IsCounters,
  (
    empty_stats-IsCounters,
    (
      empty_stats-IsCounters,
      (
        empty_stats-IsCounters,
        (
          empty_stats-IsCounters,
          (empty_stats-IsCounters, (empty_stats-IsCounters, (empty_stats-IsCounters, tt))),
        ),
      ),
    ),
  ),
)

dispatch-northbridge_diagnostics_example :
    let p =
      from_node NodeAddress.northbridge 7 (diagnostics_packet bound NodeAddress.main_computer) in
    (dispatch seen computer p 900).northbridge_state.forwarded_packets ≡ 0
dispatch-northbridge_diagnostics_example =
    ap (λ (m : MotorcycleComputer Memory (List Packet)). m.northbridge_state.forwarded_packets)
      (dispatch-northbridge_diagnostics seen computer bound NodeAddress.main_computer 7 900 refl
        (omega arith)
        (record {
          forwarded_packets_lt = omega arith;
          dropped_packets_lt = omega arith;
          route_movement_events_lt = omega arith;
          topology_fault_events_lt = omega arith;
        })
        known-IsCounters)

-- With six ports attached the diagnostics do not fit.
abbrev crowded : NorthbridgeRuntime Memory
crowded = record bound {
  ports = some 10 ∷ some 11 ∷ some 12 ∷ some 13 ∷ some 14 ∷ some 15 ∷ none ∷ none ∷ [];
}
