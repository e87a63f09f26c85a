-- ===== src/Lighting.antt =====
-- library/include/bike/lighting.hpp, library/src/lighting.cpp and lighting_hardware.hpp: the four
-- outputs, the client that asks for them, and the interface of what drives them.
pub mod Server
pub mod Diagnostics
pub mod FaultManager
pub mod LocalControl
pub mod Controller
pub mod Platform
pub mod Tests
use motorcycle_computer.Base.{
  ℕ, Bool, true, false, Option, none, some, [], ◌∷◌, replicate, if◌then◌else◌, ◌==◌,
}
use motorcycle_computer.Protocol.Packet.{Packet, empty_packet}
use motorcycle_computer.Protocol.Packet.NodeAddress
use motorcycle_computer.Protocol.Packet.MessageType
use motorcycle_computer.Transport.{Transport}
use motorcycle_computer.Node.{BikeNode, send}

pub data LightingOutput : Type 0 where
  left_indicator right_indicator brake_bright high_beam : LightingOutput

-- `static_cast<std::uint8_t>(output)`.
abbrev pub output_to_u8 : LightingOutput → ℕ
output_to_u8 left_indicator = 0x01
output_to_u8 right_indicator = 0x02
output_to_u8 brake_bright = 0x03
output_to_u8 high_beam = 0x04

-- The abstract class of the outputs; a write says whether it worked.
pub record LightingHardware (H : Type 0) : Type 0 where
  pub write_output : H → LightingOutput → Bool → Bool × H
  pub read_output : H → LightingOutput → Bool

-- What `LightingClient::set_output` sends.
abbrev pub output_packet : LightingOutput → Bool → Packet
output_packet output enabled = record empty_packet {
  destination = NodeAddress.lighting;
  type = MessageType.set_output;
  length = 2;
  payload = output_to_u8 output ∷ (if enabled then 1 else 0) ∷ replicate 126 0;
}

module _ {S : Type 0} ⦃t : Transport S⦄ where
  unfoldable pub set_output : BikeNode S → LightingOutput → Bool → ℕ → Bool → Bool × BikeNode S
  set_output n output enabled now_ms require_ack =
      send n (output_packet output enabled) now_ms require_ack

  unfoldable pub set_left_indicator : BikeNode S → Bool → ℕ → Bool → Bool × BikeNode S
  unfolding set_output
  set_left_indicator n enabled now_ms require_ack =
      set_output n left_indicator enabled now_ms require_ack

  unfoldable pub set_right_indicator : BikeNode S → Bool → ℕ → Bool → Bool × BikeNode S
  unfolding set_output
  set_right_indicator n enabled now_ms require_ack =
      set_output n right_indicator enabled now_ms require_ack

  unfoldable pub set_brake_bright : BikeNode S → Bool → ℕ → Bool → Bool × BikeNode S
  unfolding set_output
  set_brake_bright n enabled now_ms require_ack =
      set_output n brake_bright enabled now_ms require_ack

  unfoldable pub set_high_beam : BikeNode S → Bool → ℕ → Bool → Bool × BikeNode S
  unfolding set_output
  set_high_beam n enabled now_ms require_ack = set_output n high_beam enabled now_ms require_ack
