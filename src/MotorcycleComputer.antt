-- ===== src/MotorcycleComputer.antt =====
-- library/include/bike/motorcycle_computer.hpp and library/src/motorcycle_computer.cpp:
-- `MotorcycleComputer`.
--
-- The node is a field with its state, which the clients and the supervisor refer to as well. The
-- observer that may be set is a parameter: a function on a state of its own, which reads the
-- supervisor and may use the node.
pub mod DecodeLighting
pub mod DecodeNorthbridge
pub mod DecodeSecurity
pub mod Published
pub mod PublishedLighting
pub mod Exchange
pub mod Loop
pub mod Tests
use motorcycle_computer.Base.{ℕ, Bool, false, ◌&&◌, Option, none, some, List, replicate}
use motorcycle_computer.Protocol.Packet.{Packet, empty_packet}
use motorcycle_computer.Protocol.Packet.NodeAddress
use motorcycle_computer.Protocol.Packet.MessageType
use motorcycle_computer.Transport.{Transport}
use motorcycle_computer.Node
use motorcycle_computer.Node.{BikeNode, send}
use motorcycle_computer.Supervisor.{NodeStatus, status}
use motorcycle_computer.Supervisor.Service
use motorcycle_computer.Supervisor.Service.{
  NetworkSupervisor, new_supervisor, observe_packet, send_discovery, send_heartbeat,
}
use motorcycle_computer.Security.{request_state}
use motorcycle_computer.MotorcycleComputer.DecodeLighting.{
  LightingSnapshot, LightingDiagnosticSnapshot, LightingFaultSnapshot, empty_lighting,
  empty_lighting_diagnostics, empty_fault, decode_lighting_state, decode_lighting_diagnostics,
  decode_lighting_fault,
}
use motorcycle_computer.MotorcycleComputer.DecodeNorthbridge.{
  NorthbridgeSnapshot, empty_northbridge, decode_northbridge_diagnostics, decode_northbridge_fault,
}
use motorcycle_computer.MotorcycleComputer.DecodeSecurity.{
  SecuritySnapshot, empty_security, decode_security_state, decode_security_event,
}

pub record MotorcycleComputer (S O : Type 0) : Type 0 where
  pub node : BikeNode S
  pub observer : O
  pub supervisor : NetworkSupervisor
  pub lighting_state : LightingSnapshot
  pub lighting_diagnostics : LightingDiagnosticSnapshot
  pub lighting_faults : List LightingFaultSnapshot
  pub northbridge_state : NorthbridgeSnapshot
  pub security_state : SecuritySnapshot

-- The constructor.
unfoldable pub new_computer : {S O : Type 0} → BikeNode S → O → MotorcycleComputer S O
new_computer node observer = record {
  node = node;
  observer = observer;
  supervisor = new_supervisor;
  lighting_state = empty_lighting;
  lighting_diagnostics = empty_lighting_diagnostics;
  lighting_faults = replicate 4 empty_fault;
  northbridge_state = empty_northbridge;
  security_state = empty_security;
}

-- `MotorcycleSnapshot`; a node's status is `none` for a null pointer.
pub record MotorcycleSnapshot : Type 0 where
  pub lighting_node : Option NodeStatus
  pub security_node : Option NodeStatus
  pub northbridge_node : Option NodeStatus
  pub lighting : LightingSnapshot
  pub lighting_diagnostics : LightingDiagnosticSnapshot
  pub lighting_faults : List LightingFaultSnapshot
  pub northbridge : NorthbridgeSnapshot
  pub security : SecuritySnapshot
  pub tx_failures : ℕ
  pub rx_drops : ℕ

module _ {S O : Type 0} where
  unfoldable pub snapshot : MotorcycleComputer S O → MotorcycleSnapshot
  snapshot m = record {
    lighting_node = status m.supervisor.nodes NodeAddress.lighting;
    security_node = status m.supervisor.nodes NodeAddress.security;
    northbridge_node = status m.supervisor.nodes NodeAddress.northbridge;
    lighting = m.lighting_state;
    lighting_diagnostics = m.lighting_diagnostics;
    lighting_faults = m.lighting_faults;
    northbridge = m.northbridge_state;
    security = m.security_state;
    tx_failures = m.node.tx_failures;
    rx_drops = m.node.rx_drops;
  }

  -- The chain of decoders at the end of `dispatch`, the last ones first.
  unfoldable pub decode_security : MotorcycleComputer S O → Packet → ℕ → MotorcycleComputer S O
  decode_security m p now_ms = elim (decode_security_state m.security_state p now_ms) [
    | some s ↦ record m { security_state = s }
    | none ↦ elim (decode_security_event m.security_state p now_ms) [
      | some s ↦ record m { security_state = s }
      | none ↦ m
    ]
  ]

  unfoldable pub decode_northbridge : MotorcycleComputer S O → Packet → ℕ → MotorcycleComputer S O
  decode_northbridge m p now_ms =
      elim (decode_northbridge_diagnostics m.northbridge_state p now_ms) [
        | some s ↦ record m { northbridge_state = s }
        | none ↦ elim (decode_northbridge_fault m.northbridge_state p now_ms) [
          | some s ↦ record m { northbridge_state = s }
          | none ↦ decode_security m p now_ms
        ]
      ]

  unfoldable pub decode : MotorcycleComputer S O → Packet → ℕ → MotorcycleComputer S O
  decode m p now_ms = elim (decode_lighting_state m.lighting_state p now_ms) [
    | some s ↦ record m { lighting_state = s }
    | none ↦ elim (decode_lighting_diagnostics m.lighting_diagnostics p now_ms) [
      | some s ↦ record m { lighting_diagnostics = s }
      | none ↦ elim (decode_lighting_fault m.lighting_faults p now_ms) [
        | some s ↦ record m { lighting_faults = s }
        | none ↦ decode_northbridge m p now_ms
      ]
    ]
  ]

-- `PacketObserver`, with what it refers to: the node and the supervisor.
abbrev pub PacketObserver : Type 0 → Type 0 → Type 0
PacketObserver S O = O → BikeNode S → NetworkSupervisor → Packet → ℕ → O × BikeNode S

module _ {S O : Type 0} (notify : PacketObserver S O) where
  unfoldable pub dispatch : MotorcycleComputer S O → Packet → ℕ → MotorcycleComputer S O
  dispatch m p now_ms =
      let supervisor = observe_packet m.supervisor p now_ms in
      let (observer, node) = notify m.observer m.node supervisor p now_ms in
      decode (record m { supervisor = supervisor; observer = observer; node = node }) p now_ms

module _ {S O : Type 0} ⦃t : Transport S⦄ where
  unfoldable pub request_all_states : MotorcycleComputer S O → ℕ → Bool × MotorcycleComputer S O
  request_all_states m now_ms =
      let (lighting_ok, n₁) =
        send m.node
          (record empty_packet { destination = NodeAddress.lighting; type = MessageType.get_state })
          now_ms false in
      let (northbridge_ok, n₂) =
        send n₁
          (record empty_packet {
            destination = NodeAddress.northbridge;
            type = MessageType.diagnostic;
          })
          now_ms false in
      let (security_ok, n₃) = request_state n₂ now_ms in
      (lighting_ok && (northbridge_ok && security_ok), record m { node = n₃ })

  unfoldable pub begin : MotorcycleComputer S O → ℕ → MotorcycleComputer S O
  begin m now_ms =
      let (_, v₁, n₁) = send_discovery m.supervisor m.node now_ms in
      let (_, v₂, n₂) = send_heartbeat v₁ n₁ now_ms in
      (request_all_states (record m { node = n₂; supervisor = v₂ }) now_ms).1

  -- `service` after its loop over `poll`.
  unfoldable pub finish_service : MotorcycleComputer S O → ℕ → MotorcycleComputer S O
  finish_service m now_ms =
      let (v, n) = Service.service m.supervisor (Node.service m.node now_ms) now_ms in
      record m { node = n; supervisor = v }
