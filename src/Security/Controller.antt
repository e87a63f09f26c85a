-- ===== src/Security/Controller.antt =====
-- library/include/bike/security_controller.hpp and library/src/security_controller.cpp: the answers
-- of the controller around the security server. The node is the server's: both refer to one.
pub mod Loop
use motorcycle_computer.Base.{ℕ, ◌+◌, arith, Bool, false, ◌==◌, if◌then◌else◌}
use motorcycle_computer.Protocol.Packet.{Packet, empty_packet, flag_response}
use motorcycle_computer.Protocol.Packet.NodeAddress
use motorcycle_computer.Protocol.Packet.MessageType
use motorcycle_computer.Protocol.DeviceInfo.{
  DeviceIdentity, default_identity, encode_device_info_payload, security_controller_class,
  capability_diagnostics, capability_security, capability_persistent_state, capability_alarm,
  capability_start_inhibit,
}
use motorcycle_computer.Transport.{Transport}
use motorcycle_computer.Node.{send}
use motorcycle_computer.Security.{SecurityHardware, SecurityPersistence}
use motorcycle_computer.Security.Server.{SecurityServer, publish_state}
use motorcycle_computer.Security.Server.Handlers.{handle_packet}
use motorcycle_computer.Security.Server.Outputs.{IsLatching, IsSafe, publish_state-IsSafe}
use motorcycle_computer.Security.Server.Safety.{handle_packet-IsSafe}

-- The capabilities have one bit each, so that `|` is a sum.
abbrev pub security_identity : DeviceIdentity
security_identity = record default_identity {
  device_class = security_controller_class;
  firmware_major = 0;
  firmware_minor = 1;
  firmware_patch = 0;
  hardware_revision = 1;
  capabilities =
      capability_diagnostics + capability_security + capability_persistent_state + capability_alarm
      + capability_start_inhibit;
}

module _ {S H P : Type 0} ⦃t : Transport S⦄ ⦃hw : SecurityHardware H⦄
    ⦃ps : SecurityPersistence P⦄ where
  unfoldable pub send_device_info : SecurityServer S H P → ℕ → ℕ → Bool × SecurityServer S H P
  send_device_info s destination now_ms =
      let (sent, node) =
        send s.node
          (encode_device_info_payload
            (record empty_packet {
              destination = destination;
              type = MessageType.device_info;
              flags = flag_response;
            })
            NodeAddress.security security_identity now_ms)
          now_ms false in
      (sent, record s { node = node })

  unfoldable pub send_heartbeat : SecurityServer S H P → ℕ → ℕ → Bool × SecurityServer S H P
  send_heartbeat s destination now_ms =
      let (sent, node) =
        send s.node
          (record empty_packet {
            destination = destination;
            type = MessageType.heartbeat;
            flags = flag_response;
          })
          now_ms false in
      (sent, record s { node = node })

  unfoldable pub handle_system_packet :
      SecurityServer S H P → Packet → ℕ → Bool × SecurityServer S H P
  handle_system_packet s p now_ms =
      if p.type == MessageType.device_discovery
      then send_device_info s p.source now_ms
      else if p.type == MessageType.heartbeat
      then send_heartbeat s p.source now_ms
      else if p.type == MessageType.get_state
      then publish_state s p.source now_ms
      else (false, s)

  -- One round of the loop of `service`, for a packet that `poll` gave.
  unfoldable pub handle_polled : SecurityServer S H P → Packet → ℕ → SecurityServer S H P
  handle_polled s p now_ms =
      let (handled, s') = handle_system_packet s p now_ms in
      if handled then s' else (handle_packet s' p now_ms).1

  module _ (l : IsLatching hw) where
    handle_system_packet-IsSafe :
        (s : SecurityServer S H P) (p : Packet) (now_ms : ℕ)
        → IsSafe s
        → IsSafe (handle_system_packet s p now_ms).1
    unfolding handle_system_packet send_device_info send_heartbeat
    handle_system_packet-IsSafe s p now_ms v =
        ground (arith, publish_state-IsSafe l s p.source now_ms v)

    -- Whatever packet the controller takes from its node, the outputs agree with the mode
    -- afterwards, if they did before and the hardware works.
    pub handle_polled-IsSafe :
        (s : SecurityServer S H P) (p : Packet) (now_ms : ℕ)
        → IsSafe s
        → IsSafe (handle_polled s p now_ms)
    unfolding handle_polled
    handle_polled-IsSafe s p now_ms v =
        let r = handle_system_packet s p now_ms in
        ground
          (arith, handle_system_packet-IsSafe s p now_ms v, handle_packet-IsSafe l r.1 p now_ms)
