-- ===== src/Northbridge/Packets.antt =====
-- library/src/northbridge.cpp: the packets that the northbridge sends itself.
use motorcycle_computer.Base.{
  ℕ, ◌+◌, suc, Bool, false, ◌||◌, ltb, Option, none, some, List, [], ◌∷◌, get_or, set, replicate,
  u16,
}
use motorcycle_computer.Protocol.Packet.{
  Packet, empty_packet, max_payload_size, flag_response, flag_fault,
}
use motorcycle_computer.Protocol.Packet.NodeAddress
use motorcycle_computer.Protocol.Packet.MessageType
use motorcycle_computer.Protocol.DeviceInfo.{
  DeviceIdentity, default_identity, encode_device_info_payload, network_controller_class,
  capability_routing, capability_diagnostics, put_device_u32,
}
use motorcycle_computer.Transport.{Transport}
use motorcycle_computer.Router.{route_for}
use motorcycle_computer.Northbridge.{
  NorthbridgeRuntime, NorthbridgePortStats, empty_stats, send_local,
}

-- `put_u32`: the same four writes as `put_device_u32`.
abbrev pub put_u32 : List ℕ → ℕ → ℕ → List ℕ
put_u32 payload offset value = put_device_u32 payload offset value

-- The capabilities have one bit each, so that `|` is a sum.
abbrev pub northbridge_identity : DeviceIdentity
northbridge_identity = record default_identity {
  device_class = network_controller_class;
  firmware_major = 0;
  firmware_minor = 1;
  firmware_patch = 0;
  hardware_revision = 1;
  capabilities = capability_routing + capability_diagnostics;
}

-- How many ports are attached.
abbrev pub count_attached : List (Option ℕ) → ℕ
count_attached [] = 0
count_attached (none ∷ ports) = count_attached ports
count_attached (some transport ∷ ports) = suc (count_attached ports)

-- The 21 bytes that `send_diagnostics` writes for a port. A write past the end of the array is
-- undefined in C++: it changes nothing here, and `send_diagnostics` marks the state, of which
-- nothing is known then.
unfoldable pub put_port : List ℕ → ℕ → ℕ → NorthbridgePortStats → List ℕ
put_port payload offset port stats =
    let p₀ = set payload offset port in
    let p₁ = put_u32 p₀ (offset + 1) stats.rx_packets in
    let p₂ = put_u32 p₁ (offset + 5) stats.tx_packets in
    let p₃ = put_u32 p₂ (offset + 9) stats.rx_bytes in
    let p₄ = put_u32 p₃ (offset + 13) stats.dropped_packets in
    put_u32 p₄ (offset + 17) stats.malformed_frames

-- The loop over the ports, from `port` on: the payload and the offset at the end.
unfoldable pub put_ports : List ℕ → ℕ → ℕ → List (Option ℕ) → List NorthbridgePortStats → List ℕ × ℕ
unfolding put_port
put_ports payload offset port [] stats = (payload, offset)
put_ports payload offset port (none ∷ ports) stats = put_ports payload offset (port + 1) ports stats
put_ports payload offset port (some transport ∷ ports) stats =
    put_ports (put_port payload offset port (get_or stats port empty_stats)) (offset + 21)
      (port + 1) ports stats

module _ {S : Type 0} where
  -- The bytes before the ports.
  unfoldable pub put_counters : NorthbridgeRuntime S → List ℕ
  put_counters b =
      let p₁ = 0x02 ∷ count_attached b.ports ∷ replicate 126 0 in
      let p₂ = put_u32 p₁ 2 b.forwarded_packets in
      let p₃ = put_u32 p₂ 6 b.dropped_packets in
      let p₄ = put_u32 p₃ 10 b.route_movement_events in put_u32 p₄ 14 b.topology_fault_events

  unfoldable pub diagnostics_packet : NorthbridgeRuntime S → ℕ → Packet
  unfolding put_counters put_ports
  diagnostics_packet b destination =
      let (payload, offset) = put_ports (put_counters b) 18 0 b.ports b.port_stats in
      record empty_packet {
        destination = destination;
        type = MessageType.diagnostic;
        flags = flag_response;
        length = u16 offset;
        payload = payload;
      }

  unfoldable pub topology_fault_packet : NorthbridgeRuntime S → ℕ → ℕ → ℕ → Packet
  topology_fault_packet b address expected_port actual_port = record empty_packet {
    destination = NodeAddress.main_computer;
    type = MessageType.fault;
    flags = flag_fault;
    length = 9;
    payload =
        put_u32 (0x02 ∷ 0x01 ∷ address ∷ expected_port ∷ actual_port ∷ replicate 123 0) 5
          b.topology_fault_events;
  }

module _ {S : Type 0} ⦃t : Transport S⦄ where
  unfoldable pub send_device_info : NorthbridgeRuntime S → ℕ → ℕ → Bool × NorthbridgeRuntime S
  send_device_info b destination egress_port =
      send_local b
        (encode_device_info_payload
          (record empty_packet {
            destination = destination;
            type = MessageType.device_info;
            flags = flag_response;
          })
          NodeAddress.northbridge northbridge_identity b.last_service_ms)
        egress_port

  unfoldable pub send_heartbeat : NorthbridgeRuntime S → ℕ → ℕ → Bool × NorthbridgeRuntime S
  send_heartbeat b destination egress_port =
      send_local b
        (record empty_packet {
          destination = destination;
          type = MessageType.heartbeat;
          flags = flag_response;
        })
        egress_port

  -- Writes past the end of the payload leave the program undefined from here on.
  unfoldable pub send_diagnostics : NorthbridgeRuntime S → ℕ → ℕ → Bool × NorthbridgeRuntime S
  send_diagnostics b destination egress_port =
      let p = diagnostics_packet b destination in
      let (sent, b') = send_local b p egress_port in
      (sent, record b' { is_undefined = b.is_undefined || ltb max_payload_size p.length })

  unfoldable pub send_topology_fault :
      NorthbridgeRuntime S → ℕ → ℕ → ℕ → Bool × NorthbridgeRuntime S
  send_topology_fault b address expected_port actual_port =
      elim (route_for b.router NodeAddress.main_computer) [
        | none ↦ (false, b)
        | some pi_port ↦
            send_local b (topology_fault_packet b address expected_port actual_port) pi_port
      ]
