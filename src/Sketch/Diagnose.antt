-- ===== src/Sketch/Diagnose.antt =====
-- The diagnostics of the sketch, as the main computer reads them.
use motorcycle_computer.Base.{
  ℕ, ◌<◌, ◌≡◌, refl, arith, Bool, false, some, none, ◌∷◌, replicate, get_or, All-get_or,
  All-replicate, true,
}
use motorcycle_computer.Protocol.DeviceInfo.{put_device_u32}
use motorcycle_computer.MotorcycleComputer.{PacketObserver, MotorcycleComputer, dispatch}
use motorcycle_computer.MotorcycleComputer.Published.{from_node, observed}
use motorcycle_computer.MotorcycleComputer.DecodeNorthbridge.{empty_port}
use motorcycle_computer.Northbridge.{
  NorthbridgeRuntime, NorthbridgePortStats, new_runtime, empty_stats,
}
use motorcycle_computer.Northbridge.Packets.{diagnostics_packet, put_counters, put_ports, put_port}
use motorcycle_computer.Northbridge.PortBytes.{IsCounters, known}
use motorcycle_computer.Northbridge.Diagnostics.{dispatch-northbridge_diagnostics}
use motorcycle_computer.Sketch.Codec.{SketchPacket, library_packet, north}
use motorcycle_computer.Sketch.Ports.{Ports, rx_count, tx_count, malformed}
use motorcycle_computer.Sketch.Route.{SketchRouter, diagnostic_packet}

module _ {P : Type 0} where
  -- The counters of a port, as the library has them.
  abbrev pub port_counters : Ports P → ℕ → NorthbridgePortStats
  port_counters ports i = record {
    rx_bytes = 0;
    rx_packets = rx_count ports i;
    tx_packets = tx_count ports i;
    dropped_packets = 0;
    malformed_frames = malformed ports i;
  }

  -- The library's runtime with the same counters, and the three ports attached.
  abbrev pub library_runtime : SketchRouter P → NorthbridgeRuntime Bool
  library_runtime r = record (new_runtime (λ k. false)) {
    ports = some 0 ∷ some 1 ∷ some 2 ∷ replicate 5 none;
    port_stats =
        port_counters r.ports 0
        ∷ port_counters r.ports 1
        ∷ port_counters r.ports 2
        ∷ replicate 5 empty_stats;
    forwarded_packets = r.forwarded;
    dropped_packets = r.dropped;
  }

  diagnostic_packet-library :
      (r : SketchRouter P) (p : SketchPacket)
      → library_packet (diagnostic_packet r p)
        ≡ from_node north r.sequence (diagnostics_packet (library_runtime r) p.src)
  unfolding diagnostic_packet diagnostics_packet put_ports put_counters put_port put_device_u32
  diagnostic_packet-library r p = refl

empty_stats-IsCounters : IsCounters empty_stats
empty_stats-IsCounters = record {
  rx_packets_lt = omega arith;
  tx_packets_lt = omega arith;
  rx_bytes_lt = omega arith;
  dropped_packets_lt = omega arith;
  malformed_frames_lt = omega arith;
}

-- The counters fit their four bytes, as their types have it.
pub record AreWords {P : Type 0} (r : SketchRouter P) : Type 0 where
  pub forwarded_lt : r.forwarded < 4294967296
  pub dropped_lt : r.dropped < 4294967296
  pub ports_lt : (i : ℕ) → IsCounters (port_counters r.ports i)

module _ {P : Type 0} where
  known-IsCounters :
      (r : SketchRouter P)
      → AreWords r
      → (k : ℕ) → IsCounters (get_or (library_runtime r).port_stats k empty_stats)
  known-IsCounters r w k =
      All-get_or IsCounters (library_runtime r).port_stats k empty_stats empty_stats-IsCounters (
        w.ports_lt 0,
        (
          w.ports_lt 1,
          (w.ports_lt 2, All-replicate IsCounters 5 empty_stats empty_stats-IsCounters),
        ),
      )

module _ {P T O : Type 0} (notify : PacketObserver T O) where
  -- With counters that fit their four bytes, the diagnostics that the sketch sends, of whatever
  -- sequence number, make the main computer know its counters and, of each of the three ports, how many packets
  -- came in and went out and how many frames were rejected, and that no others are attached; what
  -- it knows of a topology fault and of the other nodes stays.
  pub dispatch-diagnostic_packet :
      (m : MotorcycleComputer T O) (r : SketchRouter P) (p : SketchPacket) (now_ms : ℕ)
      → AreWords r
      → let q = library_packet (diagnostic_packet r p) in
        dispatch notify m q now_ms ≡ record (observed notify m q now_ms) {
          northbridge_state = record (m.northbridge_state) {
            valid = true;
            forwarded_packets = r.forwarded;
            dropped_packets = r.dropped;
            route_movement_events = 0;
            topology_fault_events = 0;
            ports =
                known (port_counters r.ports 0)
                ∷ known (port_counters r.ports 1)
                ∷ known (port_counters r.ports 2)
                ∷ replicate 5 empty_port;
            updated_at_ms = now_ms;
          };
        }
  dispatch-diagnostic_packet m r p now_ms w = rw (diagnostic_packet-library r p) (
      dispatch-northbridge_diagnostics notify m (library_runtime r) p.src r.sequence now_ms refl
        (omega arith)
        (record {
          forwarded_packets_lt = w.forwarded_lt;
          dropped_packets_lt = w.dropped_lt;
          route_movement_events_lt = omega arith;
          topology_fault_events_lt = omega arith;
        })
        (known-IsCounters r w))
