-- ===== src/Lighting/Server/Commands.antt =====
-- What a packet does to the outputs of the lighting server.
use motorcycle_computer.Base.{
  ℕ, ◌≡◌, ◌↔◌, inl, inr, arith, Bool, true, false, ◌&&◌, some, get_or, ltb, ◌==◌, ◌!=◌,
  if◌then◌else◌, Option-cases,
}
use motorcycle_computer.Protocol.Packet.{Packet}
use motorcycle_computer.Protocol.Packet.MessageType
use motorcycle_computer.Transport.{Transport}
use motorcycle_computer.Lighting.{
  LightingOutput, output_to_u8, LightingHardware, left_indicator, right_indicator, brake_bright,
  high_beam,
}
use motorcycle_computer.Lighting.Server.{
  LightingServer, valid_output, set_commanded, apply_output, publish_state, acknowledge,
  handle_packet,
}

-- The packet asks for an output to be on or off.
abbrev pub asks_for : Packet → LightingOutput → Bool → Bool
asks_for p output enabled =
    p.type == MessageType.set_output
    && (p.length == 2
        && (get_or p.payload 0 0 == output_to_u8 output
            && get_or p.payload 1 0 == (if enabled then 1 else 0)))

valid_output-some :
    (raw : ℕ) (output : LightingOutput)
    → (valid_output raw ≡ some output) ↔ (raw ≡ output_to_u8 output)
valid_output-some raw left_indicator = ground arith
valid_output-some raw right_indicator = ground arith
valid_output-some raw brake_bright = ground arith
valid_output-some raw high_beam = ground arith

-- What the checks and the cast of the handler make of it.
asks_for-checks :
    (p : Packet) (output : LightingOutput) (enabled : Bool)
    → asks_for p output enabled ≡ true
    → ((get_or p.payload 1 0 != 0) ≡ enabled)
      × (p.type ≡ MessageType.set_output)
      × (p.length ≡ 2)
      × (ltb 1 (get_or p.payload 1 0) ≡ false)
      × (get_or p.payload 0 0 ≡ output_to_u8 output)
asks_for-checks p output enabled h = ground arith

module _ {S H : Type 0} ⦃t : Transport S⦄ ⦃hw : LightingHardware H⦄ where
  -- A packet that asks for an output makes the hardware write it, once; if the write works, the
  -- output counts as commanded so, and if it fails, nothing does.
  pub handle_packet-asked :
      (s : LightingServer S H) (p : Packet) (now_ms : ℕ) (output : LightingOutput) (enabled : Bool)
      → asks_for p output enabled ≡ true
      → let written = hw.write_output s.hardware output enabled in
        let r = handle_packet s p now_ms in
        (r.0 ≡ true)
        × (r.1.hardware ≡ written.1)
        × (r.1.commanded
            ≡ (if written.0 then set_commanded s.commanded output enabled else s.commanded))
  unfolding handle_packet apply_output publish_state acknowledge
  handle_packet-asked s p now_ms output enabled h = ground (
    arith,
    h,
    valid_output-some (get_or p.payload 0 0) output,
    asks_for-checks p output enabled h,
  )

  -- A packet that asks for no output that there is, or in another form, leaves the outputs alone.
  pub handle_packet-unasked :
      (s : LightingServer S H) (p : Packet) (now_ms : ℕ)
      → ((output : LightingOutput) (enabled : Bool) → asks_for p output enabled ≡ false)
      → ((handle_packet s p now_ms).1.hardware ≡ s.hardware)
        × ((handle_packet s p now_ms).1.commanded ≡ s.commanded)
  unfolding handle_packet acknowledge
  handle_packet-unasked s p now_ms h = elim (Option-cases (valid_output (get_or p.payload 0 0))) [
    | inl n ↦ ground (arith, n)
    | inr (output, q) ↦
        ground
          (arith, q, valid_output-some (get_or p.payload 0 0) output, h output true, h output false)
  ]
