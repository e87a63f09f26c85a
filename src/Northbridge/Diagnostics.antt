-- ===== src/Northbridge/Diagnostics.antt =====
-- What the diagnostics packet of the northbridge says, and when it is too large to be sent.
use motorcycle_computer.Base.{
  ℕ, ◌+◌, ◌*◌, ◌≤◌, ◌<◌, ◌≡◌, ◌∙◌, refl, sym, ap, arith, true, some, List, [], length, get_or,
  replicate,
}
use motorcycle_computer.Protocol.Packet.{Packet}
use motorcycle_computer.Protocol.Packet.NodeAddress
use motorcycle_computer.Protocol.Packet.MessageType
use motorcycle_computer.Protocol.DeviceInfo.{put_device_u32}
use motorcycle_computer.Protocol.DeviceInfo.Word.{HoldsWord}
use motorcycle_computer.Transport.{Transport}
use motorcycle_computer.MotorcycleComputer.{
  PacketObserver, MotorcycleComputer, dispatch, decode, decode_northbridge,
}
use motorcycle_computer.MotorcycleComputer.Published.{from_node, observed}
use motorcycle_computer.MotorcycleComputer.DecodeLighting.{
  decode_lighting_state, decode_lighting_diagnostics, decode_lighting_fault,
}
use motorcycle_computer.MotorcycleComputer.DecodeNorthbridge.{
  NorthbridgeSnapshot, empty_port, decode_ports, decode_northbridge_diagnostics,
}
use motorcycle_computer.Northbridge.{NorthbridgeRuntime, empty_stats}
use motorcycle_computer.Northbridge.Packets.{count_attached, put_counters, diagnostics_packet}
use motorcycle_computer.Northbridge.PortBytes.{
  IsCounters, port_snapshots, read_u32-HoldsWord, get_or-put_ports, HoldsWord-put_ports,
}
use motorcycle_computer.Northbridge.PortLoop.{
  put_ports-offset, count_attached-le, decode_ports-put_ports,
}

-- The four counters of the runtime fit their four bytes.
pub record IsCounting {S : Type 0} (b : NorthbridgeRuntime S) : Type 0 where
  pub forwarded_packets_lt : b.forwarded_packets < 4294967296
  pub dropped_packets_lt : b.dropped_packets < 4294967296
  pub route_movement_events_lt : b.route_movement_events < 4294967296
  pub topology_fault_events_lt : b.topology_fault_events < 4294967296

record HoldsCounters {S : Type 0} (b : NorthbridgeRuntime S) (bytes : List ℕ) : Type 0 where
  kind_byte : get_or bytes 0 0 ≡ 0x02
  count_byte : get_or bytes 1 0 ≡ count_attached b.ports
  forwarded_word : HoldsWord bytes 2 b.forwarded_packets
  dropped_word : HoldsWord bytes 6 b.dropped_packets
  moved_word : HoldsWord bytes 10 b.route_movement_events
  fault_word : HoldsWord bytes 14 b.topology_fault_events

module _ {S : Type 0} (b : NorthbridgeRuntime S) where
  length-put_counters : length (put_counters b) ≡ 128
  unfolding put_counters put_device_u32
  length-put_counters = refl

  put_counters-HoldsCounters : HoldsCounters b (put_counters b)
  unfolding put_counters put_device_u32
  put_counters-HoldsCounters = record {
    kind_byte = refl;
    count_byte = refl;
    forwarded_word = record { byte0 = refl; byte1 = refl; byte2 = refl; byte3 = refl };
    dropped_word = record { byte0 = refl; byte1 = refl; byte2 = refl; byte3 = refl };
    moved_word = record { byte0 = refl; byte1 = refl; byte2 = refl; byte3 = refl };
    fault_word = record { byte0 = refl; byte1 = refl; byte2 = refl; byte3 = refl };
  }

  diagnostics_packet-HoldsCounters :
      (destination : ℕ) → HoldsCounters b (diagnostics_packet b destination).payload
  unfolding diagnostics_packet
  diagnostics_packet-HoldsCounters destination =
      let here = put_counters-HoldsCounters in
      let byte = λ (k : ℕ) (k_lt : k < 18).
        get_or-put_ports (put_counters b) 18 0 b.ports b.port_stats k k_lt in
      let word = λ (i value : ℕ) (i_le : i + 4 ≤ 18) (w : HoldsWord (put_counters b) i value).
        HoldsWord-put_ports (put_counters b) 18 0 b.ports b.port_stats i value i_le w in
      record {
        kind_byte = byte 0 (omega arith) ∙ here.kind_byte;
        count_byte = byte 1 (omega arith) ∙ here.count_byte;
        forwarded_word = word 2 b.forwarded_packets (omega arith) here.forwarded_word;
        dropped_word = word 6 b.dropped_packets (omega arith) here.dropped_word;
        moved_word = word 10 b.route_movement_events (omega arith) here.moved_word;
        fault_word = word 14 b.topology_fault_events (omega arith) here.fault_word;
      }

  header-diagnostics_packet :
      (destination : ℕ) → (diagnostics_packet b destination).type ≡ MessageType.diagnostic
  unfolding diagnostics_packet
  header-diagnostics_packet destination = refl

  decode_ports-diagnostics_packet :
      (p : Packet) (destination : ℕ)
      → length b.ports ≡ 8
      → count_attached b.ports ≤ 5
      → ((k : ℕ) → IsCounters (get_or b.port_stats k empty_stats))
      → p.payload ≡ (diagnostics_packet b destination).payload
      → decode_ports (replicate 8 empty_port) p (count_attached b.ports) 18
        ≡ some (port_snapshots 0 b.ports b.port_stats)
  unfolding diagnostics_packet
  decode_ports-diagnostics_packet p destination len le counters e =
      ap (λ n. decode_ports (replicate n empty_port) p (count_attached b.ports) 18) (sym len)
      ∙ decode_ports-put_ports p (put_counters b) 18 0 b.ports b.port_stats [] counters refl
          (omega arith) (omega (arith, length-put_counters)) e

  -- The length of the diagnostics: 18 bytes, and 21 for each attached port.
  diagnostics_packet-length :
      (destination : ℕ)
      → length b.ports ≤ 8
      → (diagnostics_packet b destination).length ≡ 18 + 21 * count_attached b.ports
  unfolding diagnostics_packet
  diagnostics_packet-length destination le = omega (
    arith,
    count_attached-le b.ports,
    put_ports-offset (put_counters b) 18 0 b.ports b.port_stats,
  )

module _ {S : Type 0} where
  decode-diagnostics_packet :
      (s : NorthbridgeSnapshot) (b : NorthbridgeRuntime S) (destination sequence now_ms : ℕ)
      → length b.ports ≡ 8
      → count_attached b.ports ≤ 5
      → IsCounting b
      → ((k : ℕ) → IsCounters (get_or b.port_stats k empty_stats))
      → decode_northbridge_diagnostics s
          (from_node NodeAddress.northbridge sequence (diagnostics_packet b destination))
          now_ms
        ≡ some (record s {
          valid = true;
          forwarded_packets = b.forwarded_packets;
          dropped_packets = b.dropped_packets;
          route_movement_events = b.route_movement_events;
          topology_fault_events = b.topology_fault_events;
          ports = port_snapshots 0 b.ports b.port_stats;
          updated_at_ms = now_ms;
        })
  unfolding decode_northbridge_diagnostics
  decode-diagnostics_packet s b destination sequence now_ms len le counting counters =
      let p = from_node NodeAddress.northbridge sequence (diagnostics_packet b destination) in
      let here = diagnostics_packet-HoldsCounters b destination in
      ground (
        arith,
        here.kind_byte,
        here.count_byte,
        header-diagnostics_packet b destination,
        diagnostics_packet-length b destination (omega arith),
        count_attached-le b.ports,
        read_u32-HoldsWord p 2 b.forwarded_packets counting.forwarded_packets_lt
            here.forwarded_word,
        read_u32-HoldsWord p 6 b.dropped_packets counting.dropped_packets_lt here.dropped_word,
        read_u32-HoldsWord p 10 b.route_movement_events counting.route_movement_events_lt
            here.moved_word,
        read_u32-HoldsWord p 14 b.topology_fault_events counting.topology_fault_events_lt
            here.fault_word,
        decode_ports-diagnostics_packet b p destination len le counters refl,
      )

module _ {S T O : Type 0} (notify : PacketObserver T O) where
  -- With at most five of the eight ports attached and counters that fit their four bytes, the
  -- diagnostics that the northbridge sends make the main computer know its counters and, for each
  -- port, whether it is attached and what it counted; what it knows of a topology fault and of the
  -- other nodes stays.
  pub dispatch-northbridge_diagnostics :
      (m : MotorcycleComputer T O) (b : NorthbridgeRuntime S) (destination sequence now_ms : ℕ)
      → length b.ports ≡ 8
      → count_attached b.ports ≤ 5
      → IsCounting b
      → ((k : ℕ) → IsCounters (get_or b.port_stats k empty_stats))
      → let p = from_node NodeAddress.northbridge sequence (diagnostics_packet b destination) in
        dispatch notify m p now_ms ≡ record (observed notify m p now_ms) {
          northbridge_state = record (m.northbridge_state) {
            valid = true;
            forwarded_packets = b.forwarded_packets;
            dropped_packets = b.dropped_packets;
            route_movement_events = b.route_movement_events;
            topology_fault_events = b.topology_fault_events;
            ports = port_snapshots 0 b.ports b.port_stats;
            updated_at_ms = now_ms;
          };
        }
  unfolding dispatch decode decode_northbridge decode_lighting_state decode_lighting_diagnostics
      decode_lighting_fault diagnostics_packet
  dispatch-northbridge_diagnostics m b destination sequence now_ms len le counting counters =
      let p = from_node NodeAddress.northbridge sequence (diagnostics_packet b destination) in
      ground (
        arith,
        decode-diagnostics_packet m.northbridge_state b destination sequence now_ms len le counting
            counters,
      )
