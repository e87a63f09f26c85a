-- ===== src/Security.antt =====
-- library/include/bike/security.hpp, library/src/security.cpp, security_hardware.hpp and
-- security_persistence.hpp: the commands, modes and events of the security controller, and the
-- interfaces of what it drives.
pub mod Command
pub mod Event
pub mod Kept
pub mod Platform
pub mod Quiet
pub mod Server
pub mod Controller
use motorcycle_computer.Base.{ℕ, Bool, Option, [], ◌∷◌, replicate, false}
use motorcycle_computer.Protocol.Packet.{empty_packet}
use motorcycle_computer.Protocol.Packet.NodeAddress
use motorcycle_computer.Protocol.Packet.MessageType
use motorcycle_computer.Transport.{Transport}
use motorcycle_computer.Node.{BikeNode, send}

pub data SecurityMode : Type 0 where
  unlocked locked alarm lock_pending : SecurityMode

-- `static_cast<std::uint8_t>(mode)`.
abbrev pub mode_to_u8 : SecurityMode → ℕ
mode_to_u8 unlocked = 0x00
mode_to_u8 locked = 0x01
mode_to_u8 alarm = 0x02
mode_to_u8 lock_pending = 0x03

-- The abstract class of the inputs and outputs; the setters say whether they worked.
pub record SecurityHardware (H : Type 0) : Type 0 where
  pub set_alarm_output : H → Bool → Bool × H
  pub set_start_inhibit : H → Bool → Bool × H
  pub shock_warning_active : H → Bool
  pub shock_trigger_active : H → Bool
  pub engine_running : H → Bool
  pub alarm_output_active : H → Bool
  pub start_inhibit_active : H → Bool

-- The abstract class of the stored setting: `none` where nothing could be read.
pub record SecurityPersistence (P : Type 0) : Type 0 where
  pub load_armed : P → Option Bool
  pub save_armed : P → Bool → Bool × P

-- `SecurityClient::command`, over the node that the client refers to.
module _ {S : Type 0} ⦃t : Transport S⦄ where
  unfoldable pub command : BikeNode S → ℕ → ℕ → Bool → Bool × BikeNode S
  command n code now_ms require_ack =
      send n
        (record empty_packet {
          destination = NodeAddress.security;
          type = MessageType.security_command;
          length = 1;
          payload = code ∷ replicate 127 0;
        })
        now_ms require_ack

  unfoldable pub lock : BikeNode S → ℕ → Bool → Bool × BikeNode S
  unfolding command
  lock n now_ms require_ack = command n Command.lock now_ms require_ack

  unfoldable pub unlock : BikeNode S → ℕ → Bool → Bool × BikeNode S
  unfolding command
  unlock n now_ms require_ack = command n Command.unlock now_ms require_ack

  unfoldable pub silence_alarm : BikeNode S → ℕ → Bool → Bool × BikeNode S
  unfolding command
  silence_alarm n now_ms require_ack = command n Command.silence_alarm now_ms require_ack

  unfoldable pub request_state : BikeNode S → ℕ → Bool × BikeNode S
  unfolding command
  request_state n now_ms = command n Command.request_state now_ms false
