-- ===== src/Security/Server/Outputs.antt =====
-- What the outputs of the security controller have to do with its mode, and the operations that
-- set them.
use motorcycle_computer.Base.{ℕ, ◌≡◌, ◌⊎◌, arith, Bool, true, false, not, ◌&&◌, if◌then◌else◌}
use motorcycle_computer.Transport.{Transport}
use motorcycle_computer.Security.{unlocked, locked, alarm, SecurityHardware, SecurityPersistence}
use motorcycle_computer.Security.Event
use motorcycle_computer.Security.Server.{
  SecurityServer, is_armed, is_alarm, sample_inputs, sample_engine, update_start_inhibit,
  publish_event, publish_state, should_inhibit, set_alarm_output, set_start_inhibit, persist_armed,
}
use motorcycle_computer.Security.Server.Operations.{
  unlock_sampled, enter_lock, lock_sampled, start_alarm, stop_alarm,
}

-- Outputs that work and can be read back, and that do not disturb one another.
pub record IsLatching {H : Type 0} (hw : SecurityHardware H) : Type 0 where
  pub alarm_works : (h : H) (b : Bool) → (hw.set_alarm_output h b).0 ≡ true
  pub alarm_reads : (h : H) (b : Bool) → hw.alarm_output_active (hw.set_alarm_output h b).1 ≡ b
  pub alarm_alone :
      (h : H) (b : Bool)
      → hw.start_inhibit_active (hw.set_alarm_output h b).1 ≡ hw.start_inhibit_active h
  pub inhibit_reads : (h : H) (b : Bool) → hw.start_inhibit_active (hw.set_start_inhibit h b).1 ≡ b
  pub inhibit_alone :
      (h : H) (b : Bool)
      → hw.alarm_output_active (hw.set_start_inhibit h b).1 ≡ hw.alarm_output_active h

module _ {S H P : Type 0} ⦃t : Transport S⦄ ⦃hw : SecurityHardware H⦄
    ⦃ps : SecurityPersistence P⦄ where
  -- The alarm output and its timer are on in the alarm mode only, and only an unlocked server has
  -- not yet sampled the engine.
  pub record IsConsistent (s : SecurityServer S H P) : Type 0 where
    pub output : hw.alarm_output_active s.hardware ≡ is_alarm s.mode
    pub timer : s.alarm_timer_active ≡ is_alarm s.mode
    pub sampled : (s.engine.initialized ≡ true) ⊎ (s.mode ≡ unlocked)

  -- And starting is prevented exactly when the server is armed and the engine counts as stopped.
  pub record IsSafe (s : SecurityServer S H P) : Type 0 where
    pub consistent : IsConsistent s
    pub inhibit : hw.start_inhibit_active s.hardware ≡ (is_armed s.mode && not s.engine.running)

  pub sample_inputs-IsConsistent :
      (s : SecurityServer S H P) (now_ms : ℕ)
      → IsConsistent s
      → IsConsistent (sample_inputs s now_ms) × ((sample_inputs s now_ms).engine.initialized ≡ true)
  unfolding sample_inputs sample_engine
  sample_inputs-IsConsistent s now_ms c = ground arith

  module _ (l : IsLatching hw) where
    pub update_start_inhibit-IsSafe :
        (s : SecurityServer S H P) → IsConsistent s → IsSafe (update_start_inhibit s)
    unfolding update_start_inhibit should_inhibit
    update_start_inhibit-IsSafe s c = ground (
      arith,
      l.inhibit_reads s.hardware (should_inhibit s),
      l.inhibit_alone s.hardware (should_inhibit s),
    )

    pub unlock_sampled-IsSafe :
        (s : SecurityServer S H P) (now_ms : ℕ) → IsSafe (unlock_sampled s now_ms)
    unfolding unlock_sampled publish_event persist_armed set_alarm_output set_start_inhibit
    unlock_sampled-IsSafe s now_ms = ground (
      arith,
      l.alarm_reads s.hardware false,
      l.inhibit_reads (hw.set_alarm_output s.hardware false).1 false,
      l.inhibit_alone (hw.set_alarm_output s.hardware false).1 false,
    )

    enter_lock-IsConsistent :
        (s : SecurityServer S H P) (now_ms : ℕ)
        → s.engine.initialized ≡ true
        → IsConsistent (enter_lock s now_ms)
    unfolding enter_lock publish_event persist_armed set_alarm_output
    enter_lock-IsConsistent s now_ms i = ground (arith, l.alarm_reads s.hardware false)

    pub lock_sampled-IsSafe :
        (s : SecurityServer S H P) (now_ms : ℕ)
        → s.engine.initialized ≡ true
        → IsSafe (lock_sampled s now_ms)
    unfolding lock_sampled
    lock_sampled-IsSafe s now_ms i =
        update_start_inhibit-IsSafe (enter_lock s now_ms) (enter_lock-IsConsistent s now_ms i)

    pub publish_event-IsSafe :
        (s : SecurityServer S H P) (event to now_ms : ℕ)
        → IsSafe s
        → IsSafe (publish_event s event to now_ms).1
    unfolding publish_event
    publish_event-IsSafe s event to now_ms v = ground arith

    pub publish_state-IsSafe :
        (s : SecurityServer S H P) (to now_ms : ℕ) → IsSafe s → IsSafe (publish_state s to now_ms).1
    unfolding publish_state
    publish_state-IsSafe s to now_ms v = ground arith

    pub stop_alarm-IsSafe :
        (s : SecurityServer S H P) (to now_ms : ℕ)
        → IsConsistent s
        → IsSafe (stop_alarm s to now_ms).1
    unfolding stop_alarm set_alarm_output
    stop_alarm-IsSafe s to now_ms c =
        let q = record s {
          hardware = (hw.set_alarm_output s.hardware false).1;
          alarm_timer_active = false;
          mode = if is_alarm s.mode then locked else s.mode;
        } in
        ground (
          arith,
          l.alarm_works s.hardware false,
          publish_event-IsSafe (update_start_inhibit q) Event.alarm_stopped to now_ms
              (update_start_inhibit-IsSafe q (ground (arith, l.alarm_reads s.hardware false))),
        )

    pub start_alarm-IsSafe :
        (s : SecurityServer S H P) (to now_ms : ℕ) → IsSafe s → IsSafe (start_alarm s to now_ms).1
    unfolding start_alarm set_alarm_output
    start_alarm-IsSafe s to now_ms v =
        let q = record s {
          hardware = (hw.set_alarm_output s.hardware true).1;
          mode = alarm;
          alarm_started_ms = now_ms;
          alarm_timer_active = true;
        } in
        ground (
          arith,
          l.alarm_works s.hardware true,
          l.alarm_reads s.hardware true,
          publish_event-IsSafe (update_start_inhibit q) Event.alarm_started to now_ms,
          update_start_inhibit-IsSafe q,
        )
