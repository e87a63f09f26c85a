-- ===== src/Lighting/LocalControl.antt =====
-- library/include/bike/lighting_local_control.hpp, lighting_inputs.hpp and
-- library/src/lighting_local_control.cpp: the switches of the motorcycle, debounced, and the lamps
-- that they and the commands switch.
--
-- The outputs and the server that it refers to are those of the lighting server.
pub mod Asked
pub mod Debounce
pub mod Lamps
use motorcycle_computer.Base.{ℕ, Bool, true, false, not, ◌&&◌, ◌||◌, leb, elapsed, if◌then◌else◌}
use motorcycle_computer.Protocol.Packet.NodeAddress
use motorcycle_computer.Transport.{Transport}
use motorcycle_computer.Lighting.{
  LightingOutput, left_indicator, right_indicator, brake_bright, high_beam, LightingHardware,
}
use motorcycle_computer.Lighting.Server.{LightingServer, LightingState, publish_state}

-- The abstract class of the switches.
pub record LightingInputs (I : Type 0) : Type 0 where
  pub left_indicator_requested : I → Bool
  pub right_indicator_requested : I → Bool
  pub front_brake_active : I → Bool
  pub rear_brake_active : I → Bool
  pub high_beam_requested : I → Bool

-- `brake_active`.
unfoldable pub brake_active : {I : Type 0} → ⦃i : LightingInputs I⦄ → I → Bool
brake_active ⦃i⦄ inputs = i.front_brake_active inputs || i.rear_brake_active inputs

pub record DebouncedInput : Type 0 where
  pub raw : Bool
  pub stable : Bool
  pub initialized : Bool
  pub changed_at_ms : ℕ

abbrev pub new_input : DebouncedInput
new_input = record { raw = false; stable = false; initialized = false; changed_at_ms = 0 }

-- `a != b` on Booleans.
abbrev pub differs : Bool → Bool → Bool
differs true b = not b
differs false b = b

unfoldable pub update : DebouncedInput → Bool → ℕ → ℕ → Bool × DebouncedInput
update d raw now_ms debounce_ms =
    let changed_at_ms = if differs raw d.raw then now_ms else d.changed_at_ms in
    let settled = leb debounce_ms (elapsed now_ms changed_at_ms) in
    if not d.initialized
    then (false, record { raw = raw; stable = raw; initialized = true; changed_at_ms = now_ms })
    else if differs d.stable raw && settled
    then (true, record d { raw = raw; stable = raw; changed_at_ms = changed_at_ms })
    else (false, record d { raw = raw; changed_at_ms = changed_at_ms })

pub record LightingLocalControl : Type 0 where
  pub left : DebouncedInput
  pub right : DebouncedInput
  pub front_brake : DebouncedInput
  pub rear_brake : DebouncedInput
  pub high : DebouncedInput
  pub input_debounce_ms : ℕ
  pub blink_half_period_ms : ℕ
  pub last_blink_toggle_ms : ℕ
  pub blink_on : Bool
  pub indicator_active_previous : Bool
  pub initialized : Bool

abbrev pub new_local_control : LightingLocalControl
new_local_control = record {
  left = new_input;
  right = new_input;
  front_brake = new_input;
  rear_brake = new_input;
  high = new_input;
  input_debounce_ms = 25;
  blink_half_period_ms = 500;
  last_blink_toggle_ms = 0;
  blink_on = true;
  indicator_active_previous = false;
  initialized = false;
}

unfoldable pub set_blink_half_period_ms : LightingLocalControl → ℕ → LightingLocalControl
set_blink_half_period_ms c value = record c { blink_half_period_ms = value }

unfoldable pub set_input_debounce_ms : LightingLocalControl → ℕ → LightingLocalControl
set_input_debounce_ms c value = record c { input_debounce_ms = value }

unfoldable pub local_indicator_active : LightingLocalControl → Bool
local_indicator_active c = c.left.stable || c.right.stable

-- `service` from the samples to the new blink phase.
unfoldable pub blink : LightingLocalControl → ℕ → LightingLocalControl
unfolding local_indicator_active
blink c now_ms =
    let active = local_indicator_active c in
    let previous = if c.initialized then c.indicator_active_previous else active in
    let last = if c.initialized then c.last_blink_toggle_ms else now_ms in
    let on = if c.initialized then c.blink_on else true in
    let begins = active && not previous in
    let toggles = active && leb c.blink_half_period_ms (elapsed now_ms last) in
    record c {
      initialized = true;
      indicator_active_previous = active;
      blink_on =
          if not active then true else if begins then true else if toggles then not on else on;
      last_blink_toggle_ms =
          if not active
          then now_ms
          else if begins
          then now_ms
          else if toggles
          then now_ms
          else last;
    }

-- What the lamps are to be, from the switches and the commanded state.
unfoldable pub effective : LightingLocalControl → LightingState → LightingState
effective c commanded = record {
  left = if c.left.stable then c.blink_on else commanded.left;
  right = if c.right.stable then c.blink_on else commanded.right;
  brake = c.front_brake.stable || c.rear_brake.stable || commanded.brake;
  high = c.high.stable || commanded.high;
}

unfoldable pub sample_inputs :
    {I : Type 0} → ⦃i : LightingInputs I⦄ → LightingLocalControl → I → ℕ → LightingLocalControl
sample_inputs ⦃i⦄ c inputs now_ms = record c {
  left = (update c.left (i.left_indicator_requested inputs) now_ms c.input_debounce_ms).1;
  right = (update c.right (i.right_indicator_requested inputs) now_ms c.input_debounce_ms).1;
  front_brake = (update c.front_brake (i.front_brake_active inputs) now_ms c.input_debounce_ms).1;
  rear_brake = (update c.rear_brake (i.rear_brake_active inputs) now_ms c.input_debounce_ms).1;
  high = (update c.high (i.high_beam_requested inputs) now_ms c.input_debounce_ms).1;
}

module _ {S H : Type 0} ⦃hw : LightingHardware H⦄ where
  -- A failing write counts as a change.
  unfoldable pub write_if_changed :
      LightingServer S H → LightingOutput → Bool → Bool × LightingServer S H
  write_if_changed s output enabled =
      if not (differs (hw.read_output s.hardware output) enabled)
      then (false, s)
      else (true, record s { hardware = (hw.write_output s.hardware output enabled).1 })

  -- The four writes of `service`, and whether one of them changed something.
  unfoldable pub write_lamps : LightingServer S H → LightingState → Bool × LightingServer S H
  write_lamps s lamps =
      let (left, s₁) = write_if_changed s left_indicator lamps.left in
      let (right, s₂) = write_if_changed s₁ right_indicator lamps.right in
      let (brake, s₃) = write_if_changed s₂ brake_bright lamps.brake in
      let (high, s₄) = write_if_changed s₃ high_beam lamps.high in
      (high || (brake || (right || left)), s₄)

module _ {S H I : Type 0} ⦃t : Transport S⦄ ⦃hw : LightingHardware H⦄ ⦃i : LightingInputs I⦄ where
  unfoldable pub service :
      LightingLocalControl → LightingServer S H → I → ℕ → LightingLocalControl × LightingServer S H
  service c s inputs now_ms =
      let c' = blink (sample_inputs c inputs now_ms) now_ms in
      let (changed, s') = write_lamps s (effective c' s.commanded) in
      (c', if changed then (publish_state s' NodeAddress.main_computer now_ms).1 else s')
