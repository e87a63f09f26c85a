-- ===== src/Security/Server/Handlers.antt =====
-- library/src/security_server.cpp: `handle_command`, `handle_packet` and `service`.
use motorcycle_computer.Base.{
  ℕ, Bool, true, false, not, ◌&&◌, leb, elapsed, ◌==◌, ◌!=◌, if◌then◌else◌, get_or,
}
use motorcycle_computer.Protocol.Packet.{Packet}
use motorcycle_computer.Protocol.Packet.MessageType
use motorcycle_computer.Transport.{Transport}
use motorcycle_computer.Node.{send_ack, wants_ack}
use motorcycle_computer.Security.{
  SecurityMode, locked, lock_pending, SecurityHardware, SecurityPersistence,
}
use motorcycle_computer.Security.Command
use motorcycle_computer.Security.Event
use motorcycle_computer.Security.Server.{
  SecurityServer, is_locked, is_alarm, sample_inputs, update_start_inhibit, publish_event,
  publish_state,
}
use motorcycle_computer.Security.Server.Operations.{set_locked, start_alarm, stop_alarm}

-- `mode_ == SecurityMode::LockPending`.
abbrev pub is_lock_pending : SecurityMode → Bool
is_lock_pending lock_pending = true
is_lock_pending _ = false

module _ {S H P : Type 0} ⦃t : Transport S⦄ ⦃hw : SecurityHardware H⦄
    ⦃ps : SecurityPersistence P⦄ where
  -- The switch of `handle_command`.
  unfoldable pub run_command : SecurityServer S H P → ℕ → ℕ → ℕ → Bool × SecurityServer S H P
  run_command s code source now_ms =
      if code == Command.lock
      then set_locked s true now_ms
      else if code == Command.unlock
      then set_locked s false now_ms
      else if code == Command.silence_alarm
      then stop_alarm s source now_ms
      else if code == Command.request_state
      then publish_state (update_start_inhibit (sample_inputs s now_ms)) source now_ms
      else (false, s)

  -- `node_.send_ack(...)`.
  unfoldable pub acknowledge : SecurityServer S H P → ℕ → ℕ → Bool → SecurityServer S H P
  acknowledge s destination sequence nack = record s {
    node = (send_ack s.node destination sequence nack).1;
  }

  unfoldable pub handle_command :
      SecurityServer S H P → ℕ → ℕ → ℕ → Bool → ℕ → Bool × SecurityServer S H P
  handle_command s code source sequence ack_required now_ms =
      let (ok, s₁) = run_command (record s { last_controller = source }) code source now_ms in
      let s₂ = if ack_required then acknowledge s₁ source sequence (not ok) else s₁ in
      (ok, if ok && code != Command.request_state then (publish_state s₂ source now_ms).1 else s₂)

  unfoldable pub handle_packet : SecurityServer S H P → Packet → ℕ → Bool × SecurityServer S H P
  handle_packet s p now_ms =
      if p.type != MessageType.security_command
      then (false, s)
      else if p.length != 1
      then (true, if wants_ack p then acknowledge s p.source p.sequence true else s)
      else handle_command s (get_or p.payload 0 0) p.source p.sequence (wants_ack p) now_ms

  -- `service`, one step after another: a lock that waited for the engine,
  unfoldable pub complete_lock : SecurityServer S H P → ℕ → SecurityServer S H P
  complete_lock s now_ms =
      if is_lock_pending s.mode && not s.engine.running
      then (publish_state
          (publish_event (record s { mode = locked; recovery_requires_stop_confirmation = false })
            Event.locked s.last_controller now_ms).1
          s.last_controller now_ms).1
      else s

  -- an alarm that has run its time,
  unfoldable pub expire_alarm : SecurityServer S H P → ℕ → SecurityServer S H P
  expire_alarm s now_ms =
      if is_alarm s.mode
        && (s.alarm_timer_active && leb s.alarm_duration_ms (elapsed now_ms s.alarm_started_ms))
      then (publish_state (stop_alarm s s.last_controller now_ms).1 s.last_controller now_ms).1
      else s

  -- a first shock,
  unfoldable pub report_warning : SecurityServer S H P → ℕ → SecurityServer S H P
  report_warning s now_ms =
      if is_locked s.mode && (s.warning.stable && not s.previous_warning)
      then (publish_event s Event.shock_warning s.last_controller now_ms).1
      else s

  -- and a shock that sets off the alarm.
  unfoldable pub report_trigger : SecurityServer S H P → ℕ → SecurityServer S H P
  report_trigger s now_ms =
      let (started, s') =
        start_alarm (publish_event s Event.shock_trigger s.last_controller now_ms).1
          s.last_controller now_ms in
      if is_locked s.mode && (s.trigger.stable && not s.previous_trigger)
      then (if started then (publish_state s' s.last_controller now_ms).1 else s')
      else s

  unfoldable pub service : SecurityServer S H P → ℕ → SecurityServer S H P
  service s now_ms =
      let s₁ = update_start_inhibit (complete_lock (sample_inputs s now_ms) now_ms) in
      let s₂ = report_trigger (report_warning (expire_alarm s₁ now_ms) now_ms) now_ms in
      record s₂ { previous_warning = s₂.warning.stable; previous_trigger = s₂.trigger.stable }
