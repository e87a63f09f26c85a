-- ===== src/Security/Server/Alarm.antt =====
-- How long the alarm sounds.
use motorcycle_computer.Base.{ℕ, ◌<◌, ◌≡◌, ◌⊎◌, arith, false, elapsed}
use motorcycle_computer.Transport.{Transport}
use motorcycle_computer.Security.{SecurityHardware, SecurityPersistence}
use motorcycle_computer.Security.Event
use motorcycle_computer.Security.Server.{
  SecurityServer, is_alarm, sample_inputs, update_start_inhibit, set_alarm_output, publish_event,
  publish_state,
}
use motorcycle_computer.Security.Server.Operations.{start_alarm, stop_alarm}
use motorcycle_computer.Security.Server.Handlers.{
  service, complete_lock, expire_alarm, report_warning, report_trigger,
}
use motorcycle_computer.Security.Server.Outputs.{
  IsLatching, IsConsistent, sample_inputs-IsConsistent, update_start_inhibit-IsSafe,
}
use motorcycle_computer.Security.Server.Safety.{complete_lock-IsConsistent}

module _ {S H P : Type 0} ⦃t : Transport S⦄ ⦃hw : SecurityHardware H⦄
    ⦃ps : SecurityPersistence P⦄ where
  -- The alarm is off, or has not yet run its time.
  abbrev pub InTime : SecurityServer S H P → ℕ → Type 0
  InTime s now_ms =
      (is_alarm s.mode ≡ false) ⊎ (elapsed now_ms s.alarm_started_ms < s.alarm_duration_ms)

  expire_alarm-InTime :
      (s : SecurityServer S H P) (now_ms : ℕ)
      → IsLatching hw
      → IsConsistent s
      → InTime (expire_alarm s now_ms) now_ms
  unfolding expire_alarm stop_alarm set_alarm_output update_start_inhibit publish_event
      publish_state
  expire_alarm-InTime s now_ms l c = ground (arith, l.alarm_works s.hardware false)

  report_warning-InTime :
      (s : SecurityServer S H P) (now_ms : ℕ)
      → InTime s now_ms
      → InTime (report_warning s now_ms) now_ms
  unfolding report_warning publish_event
  report_warning-InTime s now_ms h = ground arith

  start_alarm-InTime :
      (s : SecurityServer S H P) (to now_ms : ℕ)
      → 0 < s.alarm_duration_ms
      → InTime s now_ms
      → InTime (start_alarm s to now_ms).1 now_ms
  unfolding start_alarm set_alarm_output update_start_inhibit publish_event
  start_alarm-InTime s to now_ms pos h = ground arith

  report_trigger-InTime :
      (s : SecurityServer S H P) (now_ms : ℕ)
      → 0 < s.alarm_duration_ms
      → InTime s now_ms
      → InTime (report_trigger s now_ms) now_ms
  unfolding report_trigger publish_event publish_state
  report_trigger-InTime s now_ms pos h =
      let e = (publish_event s Event.shock_trigger s.last_controller now_ms).1 in
      ground (arith, start_alarm-InTime e s.last_controller now_ms pos h)

  complete_lock-duration :
      (s : SecurityServer S H P) (now_ms : ℕ)
      → (complete_lock s now_ms).alarm_duration_ms ≡ s.alarm_duration_ms
  unfolding complete_lock publish_event publish_state
  complete_lock-duration s now_ms = ground arith

  expire_alarm-duration :
      (s : SecurityServer S H P) (now_ms : ℕ)
      → (expire_alarm s now_ms).alarm_duration_ms ≡ s.alarm_duration_ms
  unfolding expire_alarm stop_alarm set_alarm_output update_start_inhibit publish_event
      publish_state
  expire_alarm-duration s now_ms = ground arith

  report_warning-duration :
      (s : SecurityServer S H P) (now_ms : ℕ)
      → (report_warning s now_ms).alarm_duration_ms ≡ s.alarm_duration_ms
  unfolding report_warning publish_event
  report_warning-duration s now_ms = ground arith

  -- After a round of the main loop the alarm is off or has not yet run its time, when the hardware
  -- works, the outputs agreed with the mode before, and the alarm is to sound at all.
  pub service-InTime :
      (s : SecurityServer S H P) (now_ms : ℕ)
      → IsLatching hw
      → IsConsistent s
      → 0 < s.alarm_duration_ms
      → InTime (service s now_ms) now_ms
  unfolding service update_start_inhibit sample_inputs
  service-InTime s now_ms l c pos =
      let sampled = sample_inputs s now_ms in
      let u = update_start_inhibit (complete_lock sampled now_ms) in
      let v = expire_alarm u now_ms in
      let w = report_warning v now_ms in
      let consistent =
        update_start_inhibit-IsSafe l (complete_lock sampled now_ms)
          (complete_lock-IsConsistent l sampled now_ms (sample_inputs-IsConsistent s now_ms c).0) in
      ground (
        arith,
        complete_lock-duration sampled now_ms,
        expire_alarm-duration u now_ms,
        report_warning-duration v now_ms,
        report_trigger-InTime w now_ms,
        report_warning-InTime v now_ms,
        expire_alarm-InTime u now_ms l consistent.consistent,
      )
