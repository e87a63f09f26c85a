-- ===== src/Lighting/Platform/Pins.antt =====
-- The pins that the outputs of the lighting board drive.
use motorcycle_computer.Base.{ℕ, ◌≡◌, ◌≢◌, ◌∙◌, arith, Bool, false}
use motorcycle_computer.Arduino.{Board, PinMode}
use motorcycle_computer.Arduino.Pins.{IsDriving}
use motorcycle_computer.Lighting.{LightingOutput}
use motorcycle_computer.Lighting.LocalControl.Lamps.{IsSwitching}
use motorcycle_computer.Lighting.Platform.{
  GpioLightingHardware, pin_for, index_for, gpio_outputs, Switch, left_switch, right_switch,
  front_brake_input, rear_brake_input, high_beam_input, configure_output, configure_input,
  begin_hardware, begin_inputs,
}

-- The pin of every output has the level that was recorded for it.
abbrev pub IsDriven : {B : Type 0} → (B → ℕ → Bool) → GpioLightingHardware B → Type 0
IsDriven level h =
    (output : LightingOutput) → level h.board (pin_for output) ≡ h.state (index_for output)

-- A change of the board leaves the outputs' pins alone.
abbrev pub KeepsOutputs : {B : Type 0} → (B → ℕ → Bool) → (B → B) → Type 0
KeepsOutputs {B} level change =
    (board : B) (output : LightingOutput)
    → level (change board) (pin_for output) ≡ level board (pin_for output)

module _ {B : Type 0} ⦃b : Board B⦄ where
  pub gpio_outputs-IsSwitching : IsSwitching (gpio_outputs ⦃b = b⦄)
  gpio_outputs-IsSwitching = record {
    reads = λ h output enabled. ground arith;
    alone = λ h output other enabled e. ground (arith, e);
  }

module _ {B : Type 0} ⦃b : Board B⦄ (level : B → ℕ → Bool) (d : IsDriving b level) where
  pub write_output-IsDriven :
      (h : GpioLightingHardware B) (output : LightingOutput) (enabled : Bool)
      → let hw = gpio_outputs ⦃b = b⦄ in
        IsDriven level h → IsDriven level (hw.write_output h output enabled).1
  write_output-IsDriven h output enabled v other = ground (
    arith,
    v other,
    d.written h.board (pin_for output) enabled,
    d.unwritten h.board (pin_for output) (pin_for other) enabled,
  )

  -- The readings of the switches' pins are those of `board`.
  abbrev pub ReadsAs : B → GpioLightingHardware B → Type 0
  ReadsAs board h =
      (pin : ℕ)
      → ((output : LightingOutput) → pin_for output ≢ pin)
      → b.digital_read h.board pin ≡ b.digital_read board pin

  pub write_output-ReadsAs :
      (board : B) (h : GpioLightingHardware B) (output : LightingOutput) (enabled : Bool)
      → let hw = gpio_outputs ⦃b = b⦄ in
        ReadsAs board h → ReadsAs board (hw.write_output h output enabled).1
  write_output-ReadsAs board h output enabled v pin other =
      ground (arith, v pin other, other output, d.unread h.board (pin_for output) pin enabled)

  configure_output-low : (board : B) (pin : ℕ) → level (configure_output board pin) pin ≡ false
  configure_output-low board pin = d.written _ pin false

  configure_output-other :
      (board : B) (pin other : ℕ)
      → pin ≢ other
      → level (configure_output board pin) other ≡ level board other
  configure_output-other board pin other e =
      let low = b.digital_write board pin false in
      let ready = b.pin_mode low pin PinMode.output in
      d.unwritten ready pin other false e
      ∙ (d.unmoded low pin other PinMode.output e ∙ d.unwritten board pin other false e)

  pub begin_hardware-IsDriven :
      (h : GpioLightingHardware B)
      → ((k : ℕ) → h.state k ≡ false)
      → IsDriven level (begin_hardware h)
  unfolding begin_hardware
  begin_hardware-IsDriven h off other =
      let left = configure_output h.board 25 in
      let right = configure_output left 26 in
      let brake = configure_output right 27 in
      ground (
        arith,
        off (index_for other),
        configure_output-low h.board 25,
        configure_output-low left 26,
        configure_output-low right 27,
        configure_output-low brake 32,
        configure_output-other left 26 25,
        configure_output-other right 27 25,
        configure_output-other brake 32 25,
        configure_output-other right 27 26,
        configure_output-other brake 32 26,
        configure_output-other brake 32 27,
      )

  configure_input-other :
      (board : B) (switch : Switch) (other : ℕ)
      → switch.pin ≢ other
      → level (configure_input board switch) other ≡ level board other
  configure_input-other board switch other e = d.unmoded board switch.pin other _ e

  pub begin_inputs-KeepsOutputs : KeepsOutputs level begin_inputs
  unfolding begin_inputs
  begin_inputs-KeepsOutputs board other =
      let pin = pin_for other in
      let left = configure_input board left_switch in
      let right = configure_input left right_switch in
      let front = configure_input right front_brake_input in
      let rear = configure_input front rear_brake_input in
      ground (
        arith,
        configure_input-other board left_switch pin,
        configure_input-other left right_switch pin,
        configure_input-other right front_brake_input pin,
        configure_input-other front rear_brake_input pin,
        configure_input-other rear high_beam_input pin,
      )
