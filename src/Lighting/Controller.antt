-- ===== src/Lighting/Controller.antt =====
-- library/include/bike/lighting_controller.hpp and library/src/lighting_controller.cpp: the answers
-- of the controller around the lighting server. The node is the server's: both refer to one.
pub mod Loop
use motorcycle_computer.Base.{ℕ, ◌+◌, Bool, true, false, ◌==◌, if◌then◌else◌}
use motorcycle_computer.Protocol.Packet.{Packet, empty_packet, flag_response}
use motorcycle_computer.Protocol.Packet.NodeAddress
use motorcycle_computer.Protocol.Packet.MessageType
use motorcycle_computer.Protocol.DeviceInfo.{
  DeviceIdentity, default_identity, encode_device_info_payload, lighting_controller_class,
  capability_diagnostics, capability_lighting,
}
use motorcycle_computer.Transport.{Transport}
use motorcycle_computer.Node.{BikeNode, send, wants_ack, set_auto_ack}
use motorcycle_computer.Lighting.{LightingHardware}
use motorcycle_computer.Lighting.Server.{
  LightingServer, new_lighting_server, acknowledge, publish_state, handle_packet,
}

-- The capabilities have one bit each, so that `|` is a sum.
abbrev pub lighting_identity : DeviceIdentity
lighting_identity = record default_identity {
  device_class = lighting_controller_class;
  firmware_major = 0;
  firmware_minor = 1;
  firmware_patch = 0;
  hardware_revision = 1;
  capabilities = capability_diagnostics + capability_lighting;
}

-- The constructor.
unfoldable pub new_controller : {S H : Type 0} → BikeNode S → H → LightingServer S H
new_controller node hardware = new_lighting_server (set_auto_ack node false) hardware

module _ {S H : Type 0} ⦃t : Transport S⦄ where
  unfoldable pub send_device_info : LightingServer S H → ℕ → ℕ → Bool × LightingServer S H
  send_device_info s destination now_ms =
      let (sent, node) =
        send s.node
          (encode_device_info_payload
            (record empty_packet {
              destination = destination;
              type = MessageType.device_info;
              flags = flag_response;
            })
            NodeAddress.lighting lighting_identity now_ms)
          now_ms false in
      (sent, record s { node = node })

  unfoldable pub send_heartbeat : LightingServer S H → ℕ → ℕ → Bool × LightingServer S H
  send_heartbeat s destination now_ms =
      let (sent, node) =
        send s.node
          (record empty_packet {
            destination = destination;
            type = MessageType.heartbeat;
            flags = flag_response;
          })
          now_ms false in
      (sent, record s { node = node })

module _ {S H : Type 0} ⦃t : Transport S⦄ ⦃hw : LightingHardware H⦄ where
  -- `if ((packet.flags & FlagAckRequired) != 0) node_.send_ack(...)`.
  unfoldable pub answer : LightingServer S H → Packet → Bool → LightingServer S H
  answer s p nack = if wants_ack p then acknowledge s p nack else s

  unfoldable pub handle_system_packet : LightingServer S H → Packet → ℕ → Bool × LightingServer S H
  handle_system_packet s p now_ms =
      if p.type == MessageType.device_discovery
      then (true, (send_device_info (answer s p false) p.source now_ms).1)
      else if p.type == MessageType.heartbeat
      then (true, (send_heartbeat (answer s p false) p.source now_ms).1)
      else if p.type == MessageType.get_state
      then (true, (publish_state (answer s p false) p.source now_ms).1)
      else (false, s)

  -- One round of the loop of `service`, for a packet that `poll` gave.
  unfoldable pub handle_polled : LightingServer S H → Packet → ℕ → LightingServer S H
  handle_polled s p now_ms =
      let (system, s₁) = handle_system_packet s p now_ms in
      let (handled, s₂) = handle_packet s₁ p now_ms in
      if system then s₁ else if handled then s₂ else answer s₂ p true
