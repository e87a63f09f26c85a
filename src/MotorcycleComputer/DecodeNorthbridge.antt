-- ===== src/MotorcycleComputer/DecodeNorthbridge.antt =====
-- library/src/motorcycle_computer.cpp: what the main computer reads of the northbridge.
--
-- A decoder that returns false leaves the object as it was: `none`. One that returns true gives the
-- new snapshot. A packet that a node received has at most 128 bytes of payload, so that the loop
-- over the ports stays within it.
use motorcycle_computer.Base.{
  ℕ, ◌+◌, ◌*◌, zero, suc, Bool, true, false, ◌||◌, Option, none, some, List, get_or, set, replicate,
  ltb, leb, u16, ◌!=◌, if◌then◌else◌,
}
use motorcycle_computer.Protocol.Packet.{Packet}
use motorcycle_computer.Protocol.Packet.NodeAddress
use motorcycle_computer.Protocol.Packet.MessageType
use motorcycle_computer.Router.{max_router_ports}
use motorcycle_computer.MotorcycleComputer.DecodeLighting.{read_u32}

pub record NorthbridgePortSnapshot : Type 0 where
  pub attached : Bool
  pub rx_packets : ℕ
  pub tx_packets : ℕ
  pub rx_bytes : ℕ
  pub dropped_packets : ℕ
  pub malformed_frames : ℕ

-- `NorthbridgePortSnapshot{}`.
abbrev pub empty_port : NorthbridgePortSnapshot
empty_port = record {
  attached = false;
  rx_packets = 0;
  tx_packets = 0;
  rx_bytes = 0;
  dropped_packets = 0;
  malformed_frames = 0;
}

pub record NorthbridgeSnapshot : Type 0 where
  pub valid : Bool
  pub forwarded_packets : ℕ
  pub dropped_packets : ℕ
  pub route_movement_events : ℕ
  pub topology_fault_events : ℕ
  pub ports : List NorthbridgePortSnapshot
  pub topology_fault_active : Bool
  pub topology_fault_node : ℕ
  pub expected_port : ℕ
  pub actual_port : ℕ
  pub updated_at_ms : ℕ

-- `NorthbridgeSnapshot{}`.
abbrev pub empty_northbridge : NorthbridgeSnapshot
empty_northbridge = record {
  valid = false;
  forwarded_packets = 0;
  dropped_packets = 0;
  route_movement_events = 0;
  topology_fault_events = 0;
  ports = replicate max_router_ports empty_port;
  topology_fault_active = false;
  topology_fault_node = NodeAddress.broadcast;
  expected_port = 0;
  actual_port = 0;
  updated_at_ms = 0;
}

-- The counters of one port, which follow its number.
unfoldable pub port_at_offset : Packet → ℕ → NorthbridgePortSnapshot
port_at_offset p offset = record {
  attached = true;
  rx_packets = read_u32 p (offset + 1);
  tx_packets = read_u32 p (offset + 5);
  rx_bytes = read_u32 p (offset + 9);
  dropped_packets = read_u32 p (offset + 13);
  malformed_frames = read_u32 p (offset + 17);
}

-- The loop over the ports that the packet lists.
unfoldable pub decode_ports :
    List NorthbridgePortSnapshot → Packet → ℕ → ℕ → Option (List NorthbridgePortSnapshot)
decode_ports ports p zero offset = some ports
decode_ports ports p (suc count) offset =
    let rest =
      decode_ports (set ports (get_or p.payload offset 0) (port_at_offset p offset)) p count
        (offset + 21) in
    if leb max_router_ports (get_or p.payload offset 0) then none else rest

unfoldable pub decode_northbridge_diagnostics :
    NorthbridgeSnapshot → Packet → ℕ → Option NorthbridgeSnapshot
decode_northbridge_diagnostics s p now_ms =
    let port_count = get_or p.payload 1 0 in
    if p.source != NodeAddress.northbridge
      || (p.type != MessageType.diagnostic || (ltb p.length 18 || get_or p.payload 0 0 != 0x02))
    then none
    else if ltb max_router_ports port_count || p.length != u16 (18 + port_count * 21)
    then none
    else elim (decode_ports (replicate max_router_ports empty_port) p port_count 18) [
      | none ↦ none
      | some ports ↦ some (record s {
        forwarded_packets = read_u32 p 2;
        dropped_packets = read_u32 p 6;
        route_movement_events = read_u32 p 10;
        topology_fault_events = read_u32 p 14;
        ports = ports;
        valid = true;
        updated_at_ms = now_ms;
      })
    ]

unfoldable pub decode_northbridge_fault :
    NorthbridgeSnapshot → Packet → ℕ → Option NorthbridgeSnapshot
decode_northbridge_fault s p now_ms =
    if p.source != NodeAddress.northbridge
      || (p.type != MessageType.fault
          || (p.length != 9 || (get_or p.payload 0 0 != 0x02 || get_or p.payload 1 0 != 0x01)))
    then none
    else some (record s {
      topology_fault_active = true;
      topology_fault_node = get_or p.payload 2 0;
      expected_port = get_or p.payload 3 0;
      actual_port = get_or p.payload 4 0;
      topology_fault_events = read_u32 p 5;
      updated_at_ms = now_ms;
    })
