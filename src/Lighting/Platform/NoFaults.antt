-- ===== src/Lighting/Platform/NoFaults.antt =====
-- Without current sensors the fault manager finds nothing, and leaves the server alone.
use motorcycle_computer.Base.{ℕ, ◌≡◌, refl, arith, false, All, All-set, All-get_or}
use motorcycle_computer.Transport.{Transport}
use motorcycle_computer.Lighting.{
  LightingOutput, left_indicator, right_indicator, brake_bright, high_beam, LightingHardware,
}
use motorcycle_computer.Lighting.Server.{LightingServer}
use motorcycle_computer.Lighting.Diagnostics
use motorcycle_computer.Lighting.Diagnostics.{
  LightingDiagnostics, LightingElectricalFeedback, index_for, evaluate, is_fault, publish,
}
use motorcycle_computer.Lighting.FaultManager
use motorcycle_computer.Lighting.FaultManager.{
  LightingFaultManager, LightingFaultRecord, empty_record, record_of, update_channel,
}
use motorcycle_computer.Lighting.Platform.{no_feedback, unavailable}

-- No fault is latched.
abbrev pub NoneLatched : LightingFaultManager → Type 0
NoneLatched m = All (λ (r : LightingFaultRecord). r.latched ≡ false) m.records

module _ {S H : Type 0} ⦃t : Transport S⦄ ⦃hw : LightingHardware H⦄ where
  evaluate-unavailable :
      (d : LightingDiagnostics) (s : LightingServer S H) (output : LightingOutput)
      → is_fault (evaluate d s no_feedback output).status ≡ false
  unfolding evaluate
  evaluate-unavailable d s output = ground arith

  update_channel-unavailable :
      (m : LightingFaultManager) (s : LightingServer S H) (d : LightingDiagnostics)
      (output : LightingOutput) (now_ms : ℕ)
      → NoneLatched m
      → let (m', s') = update_channel m s d no_feedback output now_ms in NoneLatched m' × (s' ≡ s)
  unfolding update_channel record_of
  update_channel-unavailable m s d output now_ms v =
      let diagnostic = evaluate d s no_feedback output in
      let r = record (record_of m output) {
        active_status = diagnostic.status;
        last_current_ma = diagnostic.current_ma;
      } in
      let was =
        All-get_or (λ (x : LightingFaultRecord). x.latched ≡ false) m.records (index_for output)
          empty_record refl v in
      rw (evaluate-unavailable d s output) (
        All-set (λ (x : LightingFaultRecord). x.latched ≡ false) m.records (index_for output) r was
            v,
        refl,
      )

  pub service-unavailable :
      (m : LightingFaultManager) (s : LightingServer S H) (d : LightingDiagnostics) (now_ms : ℕ)
      → NoneLatched m
      → let (m', s') = FaultManager.service m s d no_feedback now_ms in NoneLatched m' × (s' ≡ s)
  unfolding FaultManager.service
  service-unavailable m s d now_ms v =
      let (m₁, s₁) = update_channel m s d no_feedback left_indicator now_ms in
      let (m₂, s₂) = update_channel m₁ s₁ d no_feedback right_indicator now_ms in
      let (m₃, s₃) = update_channel m₂ s₂ d no_feedback brake_bright now_ms in
      ground (
        arith,
        update_channel-unavailable m s d left_indicator now_ms v,
        update_channel-unavailable m₁ s₁ d right_indicator now_ms,
        update_channel-unavailable m₂ s₂ d brake_bright now_ms,
        update_channel-unavailable m₃ s₃ d high_beam now_ms,
      )

  pub diagnostics_service-hardware :
      (d : LightingDiagnostics) (s : LightingServer S H) (now_ms destination : ℕ)
      → let s' = (Diagnostics.service d s no_feedback now_ms destination).1 in
        (s'.hardware ≡ s.hardware) × (s'.commanded ≡ s.commanded)
  unfolding Diagnostics.service publish
  diagnostics_service-hardware d s now_ms destination = ground arith
