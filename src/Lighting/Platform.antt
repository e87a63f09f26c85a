-- ===== src/Lighting/Platform.antt =====
-- esp32/lighting/include/lighting_platform.hpp and esp32/lighting/src/main.cpp: the outputs and the
-- switches of the ESP32 board, and its `setup` and `loop`. The calls of the Arduino core are
-- parameters; the serial transport is that of Arduino.
pub mod Pins
pub mod Kept
pub mod NoFaults
pub mod Run
pub mod Tests
use motorcycle_computer.Base.{ℕ, Bool, true, false, not, Option, some, leb, ◌==◌, if◌then◌else◌}
use motorcycle_computer.Protocol.Packet.NodeAddress
use motorcycle_computer.Arduino.{
  Board, PinMode, HardwareSerial, ArduinoSerialTransport, serial_transport,
}
use motorcycle_computer.Arduino.Rounds.{followed_by}
use motorcycle_computer.Node.{new_node, set_ack_timeout_ms, set_max_retries}
use motorcycle_computer.Lighting.{
  LightingOutput, left_indicator, right_indicator, brake_bright, high_beam, LightingHardware,
}
use motorcycle_computer.Lighting.Server.{LightingServer}
use motorcycle_computer.Lighting.Diagnostics
use motorcycle_computer.Lighting.Diagnostics.{
  LightingElectricalFeedback, LightingDiagnostics, new_diagnostics, set_publish_interval_ms,
}
use motorcycle_computer.Lighting.FaultManager
use motorcycle_computer.Lighting.FaultManager.{
  LightingFaultManager, new_fault_manager, set_confirm_samples,
}
use motorcycle_computer.Lighting.LocalControl
use motorcycle_computer.Lighting.LocalControl.{
  LightingInputs, LightingLocalControl, new_local_control, set_blink_half_period_ms,
  set_input_debounce_ms,
}
use motorcycle_computer.Lighting.Controller.{new_controller}
use motorcycle_computer.Lighting.Controller.Loop

abbrev network_rx_pin : ℕ
network_rx_pin = 16

abbrev network_tx_pin : ℕ
network_tx_pin = 17

abbrev network_baud : ℕ
network_baud = 115200

abbrev left_indicator_pin : ℕ
left_indicator_pin = 25

abbrev right_indicator_pin : ℕ
right_indicator_pin = 26

abbrev brake_bright_pin : ℕ
brake_bright_pin = 27

abbrev high_beam_pin : ℕ
high_beam_pin = 32

pub data InputPolarity : Type 0 where
  active_low active_high : InputPolarity

-- A switch's pin and polarity.
pub record Switch : Type 0 where
  pub pin : ℕ
  pub polarity : InputPolarity

abbrev pub left_switch : Switch
left_switch = record { pin = 18; polarity = active_low }

abbrev pub right_switch : Switch
right_switch = record { pin = 19; polarity = active_low }

abbrev pub front_brake_input : Switch
front_brake_input = record { pin = 21; polarity = active_low }

abbrev pub rear_brake_input : Switch
rear_brake_input = record { pin = 23; polarity = active_low }

abbrev pub high_beam_input : Switch
high_beam_input = record { pin = 22; polarity = active_low }

-- `pin_for` and `index_for`, for the four outputs that there are.
abbrev pub pin_for : LightingOutput → ℕ
pin_for left_indicator = left_indicator_pin
pin_for right_indicator = right_indicator_pin
pin_for brake_bright = brake_bright_pin
pin_for high_beam = high_beam_pin

abbrev pub index_for : LightingOutput → ℕ
index_for left_indicator = 0
index_for right_indicator = 1
index_for brake_bright = 2
index_for high_beam = 3

-- `state_` is the function that gives the element at an index.
pub record GpioLightingHardware (B : Type 0) : Type 0 where
  pub board : B
  pub state : ℕ → Bool

pub record GpioLightingInputs (B : Type 0) : Type 0 where
  pub board : B

pub data NoLightingElectricalFeedback : Type 0 where
  no_feedback : NoLightingElectricalFeedback

module _ {B : Type 0} ⦃b : Board B⦄ where
  abbrev pub configure_output : B → ℕ → B
  configure_output board pin =
      b.digital_write (b.pin_mode (b.digital_write board pin false) pin PinMode.output) pin false

  unfoldable pub begin_hardware : GpioLightingHardware B → GpioLightingHardware B
  begin_hardware h =
      let left = configure_output h.board left_indicator_pin in
      let right = configure_output left right_indicator_pin in
      let brake = configure_output right brake_bright_pin in
      record h { board = configure_output brake high_beam_pin }

  instance abbrev pub gpio_outputs : LightingHardware (GpioLightingHardware B)
  gpio_outputs = record {
    write_output = λ h output enabled.
        let index = index_for output in
        if leb 4 index then (false, h) else (
          true,
          record {
            board = b.digital_write h.board (pin_for output) enabled;
            state = λ k. if k == index then enabled else h.state k;
          },
        );
    read_output =
        λ h output. let index = index_for output in if leb 4 index then false else h.state index;
  }

  abbrev pub configure_input : B → Switch → B
  configure_input board switch = b.pin_mode board switch.pin (elim (switch.polarity) [
    | active_low ↦ PinMode.input_pullup
    | active_high ↦ PinMode.input_pulldown
  ])

  unfoldable pub begin_inputs : B → B
  begin_inputs board =
      let left = configure_input board left_switch in
      let right = configure_input left right_switch in
      let front = configure_input right front_brake_input in
      let rear = configure_input front rear_brake_input in configure_input rear high_beam_input

  abbrev pub active : B → Switch → Bool
  active board switch =
      let level = b.digital_read board switch.pin in
      elim (switch.polarity) [ active_low ↦ not level | active_high ↦ level ]

  instance abbrev pub gpio_inputs : LightingInputs (GpioLightingInputs B)
  gpio_inputs = record {
    left_indicator_requested = λ i. active i.board left_switch;
    right_indicator_requested = λ i. active i.board right_switch;
    front_brake_active = λ i. active i.board front_brake_input;
    rear_brake_active = λ i. active i.board rear_brake_input;
    high_beam_requested = λ i. active i.board high_beam_input;
  }

instance abbrev pub unavailable : LightingElectricalFeedback NoLightingElectricalFeedback
unavailable = record { read_current_ma = λ feedback output. (false, 0) }

-- The globals. The pins belong to `hardware` and to `inputs`; they stand in the server's hardware.
pub record LightingBoard (P B : Type 0) : Type 0 where
  pub server : LightingServer (ArduinoSerialTransport P) (GpioLightingHardware B)
  pub local_control : LightingLocalControl
  pub diagnostics : LightingDiagnostics
  pub fault_manager : LightingFaultManager

module _ {P B : Type 0} ⦃hs : HardwareSerial P⦄ ⦃b : Board B⦄ where
  -- The serial port and the pins as the board finds them. `set_debounce_ms`, which the code calls and
  -- which `LightingLocalControl` does not declare, is an argument. The output on the console and the
  -- delays are left out.
  unfoldable pub setup :
      (LightingLocalControl → ℕ → LightingLocalControl) → P → B → LightingBoard P B
  setup set_debounce_ms serial board =
      let hardware = begin_hardware (record { board = board; state = λ k. false }) in
      let ready = record hardware { board = begin_inputs hardware.board } in
      let begun : ArduinoSerialTransport P = record {
        serial = hs.begin serial network_baud network_rx_pin network_tx_pin;
      } in
      let server = new_controller (new_node NodeAddress.lighting begun) ready in
      record {
        server = record server { node = set_max_retries (set_ack_timeout_ms server.node 250) 3 };
        local_control = set_debounce_ms (set_blink_half_period_ms new_local_control 500) 25;
        diagnostics = set_publish_interval_ms new_diagnostics 1000;
        fault_manager = set_confirm_samples new_fault_manager 3;
      }

  -- `loop` after `controller.service`.
  unfoldable pub loop_locally :
      LightingBoard P B
      → LightingServer (ArduinoSerialTransport P) (GpioLightingHardware B)
      → ℕ
      → LightingBoard P B
  loop_locally l s now_ms =
      let inputs : GpioLightingInputs B = record { board = s.hardware.board } in
      let (local_control, s₁) = LocalControl.service l.local_control s inputs now_ms in
      let (fault_manager, s₂) =
        FaultManager.service l.fault_manager s₁ l.diagnostics no_feedback now_ms in
      let (diagnostics, s₃) =
        Diagnostics.service l.diagnostics s₂ no_feedback now_ms NodeAddress.main_computer in
      record {
        server = s₃;
        local_control = local_control;
        diagnostics = diagnostics;
        fault_manager = fault_manager;
      }

  -- `loop`, with fuel and the time that `millis` gives.
  unfoldable pub loop : ℕ → LightingBoard P B → ℕ → Option (LightingBoard P B)
  loop fuel l now_ms =
      followed_by (Loop.service fuel l.server now_ms) (λ s. some (loop_locally l s now_ms))
