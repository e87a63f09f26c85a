-- ===== src/Lighting/Platform/Kept.antt =====
-- What a round of the lighting board does to its outputs: they are changed by writes only, and
-- without current sensors no fault is found.
use motorcycle_computer.Base.{ℕ, ◌<◌, ◌≡◌, refl, arith, Bool, Option-cases, inl, inr, get_or, ◌!=◌}
use motorcycle_computer.Protocol.Packet.{Packet}
use motorcycle_computer.Transport.{Transport}
use motorcycle_computer.Node
use motorcycle_computer.Node.Drain.{IsClosed, Ended, load, and_then-Ended, drain-ends}
use motorcycle_computer.Lighting.{
  LightingOutput, left_indicator, right_indicator, brake_bright, high_beam, LightingHardware,
}
use motorcycle_computer.Lighting.Server.{
  LightingServer, LightingState, valid_output, apply_output, publish_state, acknowledge,
  handle_packet,
}
use motorcycle_computer.Lighting.Controller.{
  send_device_info, send_heartbeat, answer, handle_system_packet, handle_polled,
}
use motorcycle_computer.Lighting.Controller.Loop.{node_of, put_node, handle_polled-load, service}
use motorcycle_computer.Lighting.LocalControl
use motorcycle_computer.Lighting.LocalControl.{
  LightingLocalControl, LightingInputs, write_if_changed, write_lamps, effective, blink,
  sample_inputs,
}

-- A predicate of the outputs that every write keeps.
abbrev pub IsKept : {H : Type 0} → LightingHardware H → (H → Type 0) → Type 0
IsKept {H} hw Q =
    (h : H) (output : LightingOutput) (enabled : Bool)
    → Q h
    → Q (hw.write_output h output enabled).1

module _ {S H : Type 0} ⦃t : Transport S⦄ ⦃hw : LightingHardware H⦄ where
  handle_system_packet-hardware :
      (s : LightingServer S H) (p : Packet) (now_ms : ℕ)
      → (handle_system_packet s p now_ms).1.hardware ≡ s.hardware
  unfolding handle_system_packet answer acknowledge publish_state send_device_info send_heartbeat
  handle_system_packet-hardware s p now_ms = ground arith

module _ {S H : Type 0} ⦃t : Transport S⦄ ⦃hw : LightingHardware H⦄ (Q : H → Type 0)
    (kept : IsKept hw Q) where
  handle_packet-kept :
      (s : LightingServer S H) (p : Packet) (now_ms : ℕ)
      → Q s.hardware
      → Q (handle_packet s p now_ms).1.hardware
  unfolding handle_packet apply_output acknowledge publish_state
  handle_packet-kept s p now_ms q = elim (Option-cases (valid_output (get_or p.payload 0 0))) [
    | inl n ↦ ground (arith, n, q)
    | inr (output, e) ↦ ground (arith, e, q, kept s.hardware output (get_or p.payload 1 0 != 0) q)
  ]

  handle_polled-kept :
      (s : LightingServer S H) (p : Packet) (now_ms : ℕ)
      → Q s.hardware
      → Q (handle_polled s p now_ms).hardware
  unfolding handle_polled answer acknowledge
  handle_polled-kept s p now_ms q =
      let s₁ = (handle_system_packet s p now_ms).1 in
      ground (arith, q, handle_system_packet-hardware s p now_ms, handle_packet-kept s₁ p now_ms)

  -- A round of the controller ends, with the outputs' predicate kept.
  pub service-kept :
      (left : S → ℕ) (c : IsClosed t left) (s : LightingServer S H) (now_ms fuel : ℕ)
      → Q s.hardware
      → load left s.node < fuel
      → Ended (λ (s' : LightingServer S H). Q s'.hardware) (service fuel s now_ms)
  unfolding service
  service-kept left c s now_ms fuel q h =
      and_then-Ended (λ (s' : LightingServer S H). (s'.node.rx_count ≡ 0) × Q s'.hardware) _ _
        (λ (s' : LightingServer S H). put_node s' (Node.service s'.node now_ms))
        (λ (s' : LightingServer S H) w. w.1)
        (drain-ends left c node_of put_node handle_polled
          (λ (s' : LightingServer S H). Q s'.hardware) fuel 0 s now_ms (λ y n. refl)
          (λ y p. handle_polled-load left c y p now_ms) (λ y n w. w)
          (λ y p w. handle_polled-kept y p now_ms w) q h).0

  write_if_changed-kept :
      (s : LightingServer S H) (output : LightingOutput) (enabled : Bool)
      → Q s.hardware
      → Q (write_if_changed s output enabled).1.hardware
  unfolding write_if_changed
  write_if_changed-kept s output enabled q = ground (arith, q, kept s.hardware output enabled q)

  write_lamps-kept :
      (s : LightingServer S H) (lamps : LightingState)
      → Q s.hardware
      → Q (write_lamps s lamps).1.hardware
  unfolding write_lamps
  write_lamps-kept s lamps q =
      let s₁ = (write_if_changed s left_indicator lamps.left).1 in
      let s₂ = (write_if_changed s₁ right_indicator lamps.right).1 in
      let s₃ = (write_if_changed s₂ brake_bright lamps.brake).1 in
      write_if_changed-kept s₃ high_beam lamps.high (
        write_if_changed-kept s₂ brake_bright lamps.brake (
          write_if_changed-kept s₁ right_indicator lamps.right
            (write_if_changed-kept s left_indicator lamps.left q)))

module _ {S H I : Type 0} ⦃t : Transport S⦄ ⦃hw : LightingHardware H⦄ ⦃i : LightingInputs I⦄ where
  pub local_service-kept :
      (Q : H → Type 0) (c : LightingLocalControl) (s : LightingServer S H) (inputs : I) (now_ms : ℕ)
      → IsKept hw Q
      → Q s.hardware
      → Q (LocalControl.service c s inputs now_ms).1.hardware
  unfolding LocalControl.service publish_state
  local_service-kept Q c s inputs now_ms kept q =
      let lamps = effective (blink (sample_inputs c inputs now_ms) now_ms) s.commanded in
      ground (arith, write_lamps-kept Q kept s lamps q)
