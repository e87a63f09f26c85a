-- ===== src/Lighting/LocalControl/Lamps.antt =====
-- What the lamps are after a round of the local control, and when it tells the main computer.
use motorcycle_computer.Base.{ℕ, ◌≡◌, ◌≢◌, refl, arith, Bool, true, false, not, ◌||◌, if◌then◌else◌}
use motorcycle_computer.Protocol.Packet.NodeAddress
use motorcycle_computer.Transport.{Transport}
use motorcycle_computer.Lighting.{
  LightingOutput, left_indicator, right_indicator, brake_bright, high_beam, output_to_u8,
  LightingHardware,
}
use motorcycle_computer.Lighting.Server.{LightingServer, LightingState, actual_state, publish_state}
use motorcycle_computer.Lighting.LocalControl.{
  LightingLocalControl, LightingInputs, differs, effective, blink, sample_inputs, write_if_changed,
  write_lamps, service,
}
use motorcycle_computer.Lighting.LocalControl.Asked.{
  readings, AreSampled, IsBlinking, AreAsked, IsReady, blink-IsBlinking, effective-AreAsked,
}

-- Outputs that work: each reads as it was written last.
pub record IsSwitching {H : Type 0} (hw : LightingHardware H) : Type 0 where
  pub reads :
      (h : H) (output : LightingOutput) (enabled : Bool)
      → hw.read_output (hw.write_output h output enabled).1 output ≡ enabled
  pub alone :
      (h : H) (output other : LightingOutput) (enabled : Bool)
      → output_to_u8 output ≢ output_to_u8 other
      → hw.read_output (hw.write_output h output enabled).1 other ≡ hw.read_output h other

-- Two states of the lamps are the same.
abbrev pub same_lamps : LightingState → LightingState → Bool
same_lamps a b = not (
    differs a.high b.high
    || (differs a.brake b.brake || (differs a.right b.right || differs a.left b.left)))

differs-false : (a b : Bool) → differs a b ≡ false → a ≡ b
differs-false true b h = ground (arith, h)
differs-false false b h = ground (arith, h)

module _ {S H : Type 0} ⦃hw : LightingHardware H⦄ (w : IsSwitching hw) where
  write_if_changed_self :
      (s : LightingServer S H) (output : LightingOutput) (enabled : Bool)
      → hw.read_output (write_if_changed s output enabled).1.hardware output ≡ enabled
  unfolding write_if_changed
  write_if_changed_self s output enabled = ground (
    arith,
    w.reads s.hardware output enabled,
    differs-false (hw.read_output s.hardware output) enabled,
  )

  write_if_changed_other :
      (s : LightingServer S H) (output other : LightingOutput) (enabled : Bool)
      → output_to_u8 output ≢ output_to_u8 other
      → hw.read_output (write_if_changed s output enabled).1.hardware other
        ≡ hw.read_output s.hardware other
  unfolding write_if_changed
  write_if_changed_other s output other enabled h =
      ground (arith, w.alone s.hardware output other enabled h)

module _ {S H : Type 0} ⦃hw : LightingHardware H⦄ where
  write_if_changed_only :
      (s : LightingServer S H) (output : LightingOutput) (enabled : Bool)
      → ((write_if_changed s output enabled).0 ≡ differs (hw.read_output s.hardware output) enabled)
        × ((write_if_changed s output enabled).1
            ≡ record s { hardware = (write_if_changed s output enabled).1.hardware })
  unfolding write_if_changed
  write_if_changed_only s output enabled = ground arith

module _ {S H : Type 0} ⦃t : Transport S⦄ ⦃hw : LightingHardware H⦄ (w : IsSwitching hw) where
  write_lamps-lamps :
      (s : LightingServer S H) (lamps : LightingState)
      → let (changed, s') = write_lamps s lamps in
        (actual_state s' ≡ lamps)
        × (changed ≡ not (same_lamps (actual_state s) lamps))
        × (s' ≡ record s { hardware = s'.hardware })
  unfolding write_lamps actual_state
  write_lamps-lamps s lamps =
      let s₁ = (write_if_changed s left_indicator lamps.left).1 in
      let s₂ = (write_if_changed s₁ right_indicator lamps.right).1 in
      let s₃ = (write_if_changed s₂ brake_bright lamps.brake).1 in
      ground (
        arith,
        write_if_changed_only s left_indicator lamps.left,
        write_if_changed_only s₁ right_indicator lamps.right,
        write_if_changed_only s₂ brake_bright lamps.brake,
        write_if_changed_only s₃ high_beam lamps.high,
        write_if_changed_self w s left_indicator lamps.left,
        write_if_changed_self w s₁ right_indicator lamps.right,
        write_if_changed_self w s₂ brake_bright lamps.brake,
        write_if_changed_self w s₃ high_beam lamps.high,
        write_if_changed_other w s left_indicator right_indicator lamps.left (omega arith),
        write_if_changed_other w s left_indicator brake_bright lamps.left (omega arith),
        write_if_changed_other w s left_indicator high_beam lamps.left (omega arith),
        write_if_changed_other w s₁ right_indicator left_indicator lamps.right (omega arith),
        write_if_changed_other w s₁ right_indicator brake_bright lamps.right (omega arith),
        write_if_changed_other w s₁ right_indicator high_beam lamps.right (omega arith),
        write_if_changed_other w s₂ brake_bright left_indicator lamps.brake (omega arith),
        write_if_changed_other w s₂ brake_bright right_indicator lamps.brake (omega arith),
        write_if_changed_other w s₂ brake_bright high_beam lamps.brake (omega arith),
        write_if_changed_other w s₃ high_beam left_indicator lamps.high (omega arith),
        write_if_changed_other w s₃ high_beam right_indicator lamps.high (omega arith),
        write_if_changed_other w s₃ high_beam brake_bright lamps.high (omega arith),
      )

module _ {S H : Type 0} ⦃t : Transport S⦄ ⦃hw : LightingHardware H⦄ where
  publish_state-only :
      (s : LightingServer S H) (destination now_ms : ℕ)
      → ((publish_state s destination now_ms).1.hardware ≡ s.hardware)
        × ((publish_state s destination now_ms).1.commanded ≡ s.commanded)
  unfolding publish_state
  publish_state-only s destination now_ms = (refl, refl)

  actual_state-hardware :
      (s s' : LightingServer S H) → s'.hardware ≡ s.hardware → actual_state s' ≡ actual_state s
  unfolding actual_state
  actual_state-hardware s s' e = rw e refl

module _ {S H I : Type 0} ⦃t : Transport S⦄ ⦃hw : LightingHardware H⦄ ⦃i : LightingInputs I⦄ where
  -- With outputs that work, on a control that remembers whether an indicator was on and has a time
  -- for its phases: after a round each switch is debounced from its own reading; while an indicator
  -- stays on the blinking phase changes once half a period has gone, and else it is on; the left and
  -- the right lamp are in that phase when their switch is on and else as commanded, the brake light
  -- is on with either brake or the command and the high beam with its switch or the command; the
  -- commanded state is as before, the control remembers again, and the state was sent to the main
  -- computer exactly when one of the lamps was otherwise before.
  pub service-lamps :
      (c : LightingLocalControl) (s : LightingServer S H) (inputs : I) (now_ms : ℕ)
      → IsSwitching hw
      → IsReady c
      → let (c', s') = service c s inputs now_ms in
        AreSampled c (readings i inputs) now_ms c'
        × IsBlinking c now_ms c'
        × IsReady c'
        × AreAsked c' s.commanded (actual_state s')
        × (s'.commanded ≡ s.commanded)
        × (s'.node ≡ (
            if same_lamps (actual_state s) (actual_state s')
            then s.node
            else (publish_state
                (record s { hardware = s'.hardware })
                NodeAddress.main_computer
                now_ms).1.node))
  unfolding service
  service-lamps c s inputs now_ms w h =
      let c' = blink (sample_inputs c inputs now_ms) now_ms in
      let lamps = effective c' s.commanded in
      let s' = (write_lamps s lamps).1 in
      let blinks = blink-IsBlinking c inputs now_ms h in
      let asked = effective-AreAsked c' s.commanded in
      let shown : (actual_state (service c s inputs now_ms).1 ≡ lamps) = ground (
        arith,
        write_lamps-lamps w s lamps,
        actual_state-hardware s' (publish_state s' NodeAddress.main_computer now_ms).1,
        publish_state-only s' NodeAddress.main_computer now_ms,
      ) in
      (
        blinks.0,
        blinks.1,
        blinks.2,
        rw shown asked,
        ground (
          arith,
          write_lamps-lamps w s lamps,
          publish_state-only s' NodeAddress.main_computer now_ms,
        ),
        rw shown (
            ground (
              arith,
              write_lamps-lamps w s lamps,
              publish_state-only s' NodeAddress.main_computer now_ms,
            )),
      )
