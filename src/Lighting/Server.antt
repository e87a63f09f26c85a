-- ===== src/Lighting/Server.antt =====
-- library/include/bike/lighting_server.hpp and library/src/lighting_server.cpp: `LightingServer`.
pub mod Commands
use motorcycle_computer.Base.{
  ℕ, Bool, true, false, not, ◌||◌, Option, none, some, List, [], ◌∷◌, replicate, get_or, ltb, ◌==◌,
  ◌!=◌, if◌then◌else◌,
}
use motorcycle_computer.Protocol.Packet.{Packet, empty_packet}
use motorcycle_computer.Protocol.Packet.MessageType
use motorcycle_computer.Transport.{Transport}
use motorcycle_computer.Node.{BikeNode, send, send_ack}
use motorcycle_computer.Lighting.{
  LightingOutput, left_indicator, right_indicator, brake_bright, high_beam, output_to_u8,
  LightingHardware,
}

pub record LightingState : Type 0 where
  pub left : Bool
  pub right : Bool
  pub brake : Bool
  pub high : Bool

abbrev pub state_value : LightingState → LightingOutput → Bool
state_value state left_indicator = state.left
state_value state right_indicator = state.right
state_value state brake_bright = state.brake
state_value state high_beam = state.high

-- `valid_output`, with the cast that it makes safe.
abbrev pub valid_output : ℕ → Option LightingOutput
valid_output raw =
    if raw == output_to_u8 left_indicator
    then some left_indicator
    else if raw == output_to_u8 right_indicator
    then some right_indicator
    else if raw == output_to_u8 brake_bright
    then some brake_bright
    else if raw == output_to_u8 high_beam
    then some high_beam
    else none

-- `set_commanded`.
abbrev pub set_commanded : LightingState → LightingOutput → Bool → LightingState
set_commanded state left_indicator enabled = record state { left = enabled }
set_commanded state right_indicator enabled = record state { right = enabled }
set_commanded state brake_bright enabled = record state { brake = enabled }
set_commanded state high_beam enabled = record state { high = enabled }

pub record LightingServer (S H : Type 0) : Type 0 where
  pub node : BikeNode S
  pub hardware : H
  pub commanded : LightingState

-- The constructor.
abbrev pub new_lighting_server : {S H : Type 0} → BikeNode S → H → LightingServer S H
new_lighting_server node hardware = record {
  node = node;
  hardware = hardware;
  commanded = record { left = false; right = false; brake = false; high = false };
}

module _ {S H : Type 0} ⦃t : Transport S⦄ ⦃hw : LightingHardware H⦄ where
  unfoldable pub apply_output :
      LightingServer S H → LightingOutput → Bool → Bool × LightingServer S H
  apply_output s output enabled =
      let (done, h) = hw.write_output s.hardware output enabled in
      if done
      then (true, record s { hardware = h; commanded = set_commanded s.commanded output enabled })
      else (false, record s { hardware = h })

  unfoldable pub actual_state : LightingServer S H → LightingState
  actual_state s = record {
    left = hw.read_output s.hardware left_indicator;
    right = hw.read_output s.hardware right_indicator;
    brake = hw.read_output s.hardware brake_bright;
    high = hw.read_output s.hardware high_beam;
  }

  abbrev pub output_flag : LightingServer S H → LightingOutput → ℕ
  unfolding actual_state
  output_flag s output = if state_value (actual_state s) output then 1 else 0

  -- The packet of `publish_state`.
  unfoldable pub state_packet : LightingServer S H → ℕ → Packet
  unfolding output_flag
  state_packet s destination = record empty_packet {
    destination = destination;
    type = MessageType.state_update;
    length = 8;
    payload =
        output_to_u8 left_indicator
        ∷ output_flag s left_indicator
        ∷ output_to_u8 right_indicator
        ∷ output_flag s right_indicator
        ∷ output_to_u8 brake_bright
        ∷ output_flag s brake_bright
        ∷ output_to_u8 high_beam
        ∷ output_flag s high_beam
        ∷ replicate 120 0;
  }

  unfoldable pub publish_state : LightingServer S H → ℕ → ℕ → Bool × LightingServer S H
  publish_state s destination now_ms =
      let (sent, node) = send s.node (state_packet s destination) now_ms false in
      (sent, record s { node = node })

  unfoldable pub acknowledge : LightingServer S H → Packet → Bool → LightingServer S H
  acknowledge s p nack = record s { node = (send_ack s.node p.source p.sequence nack).1 }

  unfoldable pub handle_packet : LightingServer S H → Packet → ℕ → Bool × LightingServer S H
  handle_packet s p now_ms =
      if p.type != MessageType.set_output
      then (false, s)
      else if p.length != 2 || ltb 1 (get_or p.payload 1 0)
      then (true, acknowledge s p true)
      else elim (valid_output (get_or p.payload 0 0)) [
        | none ↦ (true, acknowledge s p true)
        | some output ↦
            let (done, s') = apply_output s output (get_or p.payload 1 0 != 0) in
            (
              true,
              if done
                  then (publish_state (acknowledge s' p false) p.source now_ms).1
                  else acknowledge s' p true,
            )
      ]
