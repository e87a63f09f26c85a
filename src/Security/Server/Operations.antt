-- ===== src/Security/Server/Operations.antt =====
-- library/src/security_server.cpp: the operations of `SecurityServer` that lock, unlock, and start and
-- stop the alarm.
use motorcycle_computer.Base.{ℕ, Bool, true, false, not, if◌then◌else◌}
use motorcycle_computer.Transport.{Transport}
use motorcycle_computer.Security.{
  unlocked, locked, alarm, lock_pending, SecurityHardware, SecurityPersistence,
}
use motorcycle_computer.Security.Event
use motorcycle_computer.Security.Server.{
  SecurityServer, is_locked, is_alarm, set_alarm_output, set_start_inhibit, persist_armed,
  sample_inputs, update_start_inhibit, publish_event,
}

module _ {S H P : Type 0} ⦃t : Transport S⦄ ⦃hw : SecurityHardware H⦄
    ⦃ps : SecurityPersistence P⦄ where
  -- `set_locked(false)` after the sample.
  unfoldable pub unlock_sampled : SecurityServer S H P → ℕ → SecurityServer S H P
  unlock_sampled s now_ms =
      let off = set_start_inhibit (set_alarm_output (record s { mode = unlocked }) false).1 false in
      (publish_event
        (persist_armed
          (record off { alarm_timer_active = false; recovery_requires_stop_confirmation = false })
          false)
        Event.unlocked s.last_controller now_ms).1

  -- `set_locked(true)` after the sample, up to the update of the start inhibit.
  unfoldable pub enter_lock : SecurityServer S H P → ℕ → SecurityServer S H P
  enter_lock s now_ms =
      let armed =
        persist_armed
          (record ((set_alarm_output s false).1) {
            alarm_timer_active = false;
            recovery_requires_stop_confirmation = false;
          })
          true in
      if s.engine.running
      then (publish_event (record armed { mode = lock_pending }) Event.lock_pending
          s.last_controller now_ms).1
      else (publish_event (record armed { mode = locked }) Event.locked s.last_controller now_ms).1

  unfoldable pub lock_sampled : SecurityServer S H P → ℕ → SecurityServer S H P
  lock_sampled s now_ms = update_start_inhibit (enter_lock s now_ms)

  unfoldable pub set_locked : SecurityServer S H P → Bool → ℕ → Bool × SecurityServer S H P
  set_locked s false now_ms = (true, unlock_sampled (sample_inputs s now_ms) now_ms)
  set_locked s true now_ms = (true, lock_sampled (sample_inputs s now_ms) now_ms)

  unfoldable pub start_alarm : SecurityServer S H P → ℕ → ℕ → Bool × SecurityServer S H P
  start_alarm s report_to now_ms =
      let (done, s') = set_alarm_output s true in
      if not (is_locked s.mode) then (false, s) else if not done then (false, s') else (
        true,
        (publish_event
            (update_start_inhibit
              (record s' { mode = alarm; alarm_started_ms = now_ms; alarm_timer_active = true }))
            Event.alarm_started report_to now_ms).1,
      )

  unfoldable pub stop_alarm : SecurityServer S H P → ℕ → ℕ → Bool × SecurityServer S H P
  stop_alarm s report_to now_ms =
      let (done, s') = set_alarm_output s false in
      if not done then (false, s') else (
        true,
        (publish_event
            (update_start_inhibit (record s' {
              alarm_timer_active = false;
              mode = if is_alarm s.mode then locked else s.mode;
            }))
            Event.alarm_stopped report_to now_ms).1,
      )
