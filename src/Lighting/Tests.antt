-- ===== src/Lighting/Tests.antt =====
-- The lighting server with outputs in memory, after tests/lighting_server_test.cpp.
use motorcycle_computer.Lighting.Diagnostics.{
  LightingElectricalFeedback, new_diagnostics, evaluate, classify,
}
use motorcycle_computer.Lighting.FaultManager.{new_fault_manager, record_of}
use motorcycle_computer.Lighting.FaultManager.Confirm
use motorcycle_computer.Lighting.FaultManager.Confirm.{Sample, update_all-latched}
use motorcycle_computer.Lighting.LocalControl
use motorcycle_computer.Lighting.LocalControl.{
  LightingInputs, DebouncedInput, new_local_control, effective,
}
use motorcycle_computer.Lighting.LocalControl.Debounce
use motorcycle_computer.Lighting.LocalControl.Debounce.{update_all-settles}
use motorcycle_computer.Lighting.LocalControl.Lamps.{IsSwitching, service-lamps}
use motorcycle_computer.Lighting.Controller.Loop.{service, service-ends}
use motorcycle_computer.Node.Tests.{memory-IsClosed, unread}
use motorcycle_computer.Base.{ℕ, ◌+◌, ◌≡◌, ◌≢◌, refl, arith, Bool, true, false, [], ◌∷◌}
use motorcycle_computer.Protocol.Packet.NodeAddress
use motorcycle_computer.Node.{new_node}
use motorcycle_computer.Node.Tests.{Memory, memory}
use motorcycle_computer.Lighting.{
  LightingHardware, LightingOutput, left_indicator, right_indicator, brake_bright, high_beam,
  output_to_u8,
}
use motorcycle_computer.Lighting.Server.{
  LightingServer, LightingState, state_value, set_commanded, new_lighting_server,
}
use motorcycle_computer.Protocol.Codec.Tests.{left_on_frame}

-- Outputs that work.
instance abbrev pub lamps : LightingHardware LightingState
lamps = record {
  write_output = λ h output enabled. (true, set_commanded h output enabled);
  read_output = state_value;
}

abbrev dark : LightingState
dark = record { left = false; right = false; brake = false; high = false }

abbrev pub dark_server : LightingServer Memory LightingState
unfolding new_node
dark_server =
    new_lighting_server (new_node NodeAddress.lighting (record { rx = []; writes = [] })) dark

-- The frame of a command is on the line.
abbrev called : LightingServer Memory LightingState
called = record dark_server {
  node = new_node NodeAddress.lighting (record { rx = left_on_frame; writes = [] });
}

service-ends_example : service (20 + 16) called 100 ≡ service 16 called 100
unfolding new_node
service-ends_example = (service-ends unread memory-IsClosed called 100 16 20 (omega arith)).1

lamps-alone :
    (h : LightingState) (output other : LightingOutput) (enabled : Bool)
    → output_to_u8 output ≢ output_to_u8 other
    → state_value (set_commanded h output enabled) other ≡ state_value h other
lamps-alone h output other enabled e = ground (arith, e)

lamps-reads :
    (h : LightingState) (output : LightingOutput) (enabled : Bool)
    → state_value (set_commanded h output enabled) output ≡ enabled
lamps-reads h left_indicator enabled = refl
lamps-reads h right_indicator enabled = refl
lamps-reads h brake_bright enabled = refl
lamps-reads h high_beam enabled = refl

lamps-IsSwitching : IsSwitching lamps
lamps-IsSwitching = record { reads = lamps-reads; alone = lamps-alone }

-- Only the switch of the high beam.
instance abbrev switches : LightingInputs Bool
switches = record {
  left_indicator_requested = λ on. false;
  right_indicator_requested = λ on. false;
  front_brake_active = λ on. false;
  rear_brake_active = λ on. false;
  high_beam_requested = λ on. on;
}

service-lamps_example :
    (LocalControl.service new_local_control dark_server true 100).1.commanded ≡ dark
unfolding dark_server
service-lamps_example =
    (service-lamps new_local_control dark_server true 100 lamps-IsSwitching (refl, omega arith)).4

-- A switch that is off.
abbrev open_switch : DebouncedInput
open_switch = record { raw = false; stable = false; initialized = true; changed_at_ms = 10 }

update_all-settles_example :
    (Debounce.update_all open_switch true 25 (100 ∷ 110 ∷ 130 ∷ [])).stable ≡ true
update_all-settles_example =
    update_all-settles open_switch true 25 100 (110 ∷ 130 ∷ []) refl refl refl

-- A sensor for each output, which measures 40 mA.
instance abbrev pub sensors : LightingElectricalFeedback Bool
sensors = record { read_current_ma = λ connected output. (connected, 40) }

-- A sensor with a reading of its own.
record Current : Type 0 where
  current_ma : ℕ

instance abbrev readings : LightingElectricalFeedback Current
readings = record { read_current_ma = λ c output. (true, c.current_ma) }

-- The left indicator is driven.
abbrev left_server : LightingServer Memory LightingState
left_server = record dark_server { hardware = record dark { left = true } }

-- It draws too little, then too much, then nothing.
abbrev drawing : ℕ → ℕ → Sample LightingState Current
drawing current_ma now_ms = record {
  diagnostics = new_diagnostics;
  feedback = record { current_ma = current_ma };
  hardware = left_server.hardware;
  now_ms = now_ms;
}

update_all-latched_example :
    (record_of
      (Confirm.update_all new_fault_manager left_server left_indicator
        (drawing 40 100 ∷ drawing 30000 200 ∷ drawing 0 300 ∷ [])).0
      left_indicator).latched
    ≡ true
unfolding record_of evaluate classify
update_all-latched_example =
    (update_all-latched new_fault_manager left_server left_indicator (drawing 40 100)
      (drawing 30000 200 ∷ drawing 0 300 ∷ []) (refl, refl) refl (omega arith) (omega arith)
      (refl, (refl, (refl, tt)))).0
