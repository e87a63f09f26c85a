-- ===== src/Security/Quiet.antt =====
-- What the security server does with its node: it only sends.
use motorcycle_computer.Base.{ℕ, ◌≡◌, refl, not, if◌then◌else◌, arith, Bool, get_or, true, false}
use motorcycle_computer.Protocol.Packet.{Packet}
use motorcycle_computer.Transport.{Transport}
use motorcycle_computer.Node.{BikeNode, wants_ack}
use motorcycle_computer.Node.Drain.{IsClosed, IsQuiet, send-quiet, send_ack-quiet}
use motorcycle_computer.Security.{
  SecurityHardware, SecurityPersistence, locked, lock_pending, alarm,
}
use motorcycle_computer.Security.Event
use motorcycle_computer.Security.Server.{
  SecurityServer, is_alarm, event_packet, state_packet, publish_event, publish_state,
  set_alarm_output, set_start_inhibit, persist_armed, sample_inputs, update_start_inhibit,
}
use motorcycle_computer.Security.Server.Operations.{
  unlock_sampled, enter_lock, lock_sampled, set_locked, start_alarm, stop_alarm,
}
use motorcycle_computer.Security.Server.Handlers.{
  run_command, acknowledge, handle_command, handle_packet, complete_lock, expire_alarm,
  report_warning, report_trigger, service,
}

module _ {S H P : Type 0} ⦃t : Transport S⦄ ⦃hw : SecurityHardware H⦄
    ⦃ps : SecurityPersistence P⦄ where
  persist_armed-node :
      (s : SecurityServer S H P) (armed : Bool) → (persist_armed s armed).node ≡ s.node
  unfolding persist_armed
  persist_armed-node s armed = ground arith

module _ {S H P : Type 0} ⦃t : Transport S⦄ ⦃hw : SecurityHardware H⦄ ⦃ps : SecurityPersistence P⦄
    (left : S → ℕ) (c : IsClosed t left) where
  publish_event-quiet :
      (s : SecurityServer S H P) (event destination now_ms : ℕ)
      → IsQuiet left s.node (publish_event s event destination now_ms).1.node
  unfolding publish_event
  publish_event-quiet s event destination now_ms =
      send-quiet left c s.node (event_packet event destination) now_ms false

  -- From a state that has the same node.
  publish_event-from :
      (n : BikeNode S) (s : SecurityServer S H P) (event destination now_ms : ℕ)
      → s.node ≡ n
      → IsQuiet left n (publish_event s event destination now_ms).1.node
  publish_event-from n s event destination now_ms e =
      ground (arith, e, publish_event-quiet s event destination now_ms)

  pub publish_state-quiet :
      (s : SecurityServer S H P) (destination now_ms : ℕ)
      → IsQuiet left s.node (publish_state s destination now_ms).1.node
  unfolding publish_state
  publish_state-quiet s destination now_ms =
      send-quiet left c s.node (state_packet s destination) now_ms false

  acknowledge-quiet :
      (s : SecurityServer S H P) (destination sequence : ℕ) (nack : Bool)
      → IsQuiet left s.node (acknowledge s destination sequence nack).node
  unfolding acknowledge
  acknowledge-quiet s destination sequence nack =
      send_ack-quiet left c s.node destination sequence nack

  unlock_sampled-quiet :
      (s : SecurityServer S H P) (now_ms : ℕ) → IsQuiet left s.node (unlock_sampled s now_ms).node
  unfolding unlock_sampled set_alarm_output set_start_inhibit
  unlock_sampled-quiet s now_ms =
      publish_event-from s.node _ Event.unlocked s.last_controller now_ms
        (persist_armed-node _ false)

  enter_lock-quiet :
      (s : SecurityServer S H P) (now_ms : ℕ) → IsQuiet left s.node (enter_lock s now_ms).node
  unfolding enter_lock set_alarm_output
  enter_lock-quiet s now_ms =
      let armed =
        persist_armed
          (record ((set_alarm_output s false).1) {
            alarm_timer_active = false;
            recovery_requires_stop_confirmation = false;
          })
          true in
      ground (
        arith,
        publish_event-from s.node (record armed { mode = lock_pending }) Event.lock_pending
            s.last_controller now_ms (persist_armed-node _ true),
        publish_event-from s.node (record armed { mode = locked }) Event.locked s.last_controller
            now_ms (persist_armed-node _ true),
      )

  set_locked-quiet :
      (s : SecurityServer S H P) (enabled : Bool) (now_ms : ℕ)
      → IsQuiet left s.node (set_locked s enabled now_ms).1.node
  unfolding set_locked sample_inputs lock_sampled update_start_inhibit set_start_inhibit
  set_locked-quiet s false now_ms = unlock_sampled-quiet (sample_inputs s now_ms) now_ms
  set_locked-quiet s true now_ms = enter_lock-quiet (sample_inputs s now_ms) now_ms

  start_alarm-quiet :
      (s : SecurityServer S H P) (report_to now_ms : ℕ)
      → IsQuiet left s.node (start_alarm s report_to now_ms).1.node
  unfolding start_alarm set_alarm_output update_start_inhibit set_start_inhibit
  start_alarm-quiet s report_to now_ms =
      let s' = (set_alarm_output s true).1 in
      let sounding =
        update_start_inhibit
          (record s' { mode = alarm; alarm_started_ms = now_ms; alarm_timer_active = true }) in
      ground (arith, publish_event-from s.node sounding Event.alarm_started report_to now_ms refl)

  stop_alarm-quiet :
      (s : SecurityServer S H P) (report_to now_ms : ℕ)
      → IsQuiet left s.node (stop_alarm s report_to now_ms).1.node
  unfolding stop_alarm set_alarm_output update_start_inhibit set_start_inhibit
  stop_alarm-quiet s report_to now_ms =
      let s' = (set_alarm_output s false).1 in
      let stopped = update_start_inhibit (record s' {
        alarm_timer_active = false;
        mode = if is_alarm s.mode then locked else s.mode;
      }) in
      ground (arith, publish_event-from s.node stopped Event.alarm_stopped report_to now_ms refl)

  run_command-quiet :
      (s : SecurityServer S H P) (code source now_ms : ℕ)
      → IsQuiet left s.node (run_command s code source now_ms).1.node
  unfolding run_command update_start_inhibit sample_inputs set_start_inhibit
  run_command-quiet s code source now_ms = ground (
    arith,
    set_locked-quiet s true now_ms,
    set_locked-quiet s false now_ms,
    stop_alarm-quiet s source now_ms,
    publish_state-quiet (update_start_inhibit (sample_inputs s now_ms)) source now_ms,
  )

  handle_command-quiet :
      (s : SecurityServer S H P) (code source sequence : ℕ) (ack_required : Bool) (now_ms : ℕ)
      → IsQuiet left s.node (handle_command s code source sequence ack_required now_ms).1.node
  unfolding handle_command
  handle_command-quiet s code source sequence ack_required now_ms =
      let (ok, s₁) = run_command (record s { last_controller = source }) code source now_ms in
      let s₂ = acknowledge s₁ source sequence (not ok) in
      ground (
        arith,
        run_command-quiet (record s { last_controller = source }) code source now_ms,
        acknowledge-quiet s₁ source sequence (not ok),
        publish_state-quiet s₁ source now_ms,
        publish_state-quiet s₂ source now_ms,
      )

  pub handle_packet-quiet :
      (s : SecurityServer S H P) (p : Packet) (now_ms : ℕ)
      → IsQuiet left s.node (handle_packet s p now_ms).1.node
  unfolding handle_packet
  handle_packet-quiet s p now_ms = ground (
    arith,
    acknowledge-quiet s p.source p.sequence true,
    handle_command-quiet s (get_or p.payload 0 0) p.source p.sequence (wants_ack p) now_ms,
  )

  complete_lock-quiet :
      (s : SecurityServer S H P) (now_ms : ℕ) → IsQuiet left s.node (complete_lock s now_ms).node
  unfolding complete_lock
  complete_lock-quiet s now_ms =
      let done = record s { mode = locked; recovery_requires_stop_confirmation = false } in
      let told = (publish_event done Event.locked s.last_controller now_ms).1 in
      ground (
        arith,
        publish_event-from s.node done Event.locked s.last_controller now_ms refl,
        publish_state-quiet told s.last_controller now_ms,
      )

  expire_alarm-quiet :
      (s : SecurityServer S H P) (now_ms : ℕ) → IsQuiet left s.node (expire_alarm s now_ms).node
  unfolding expire_alarm
  expire_alarm-quiet s now_ms =
      let stopped = (stop_alarm s s.last_controller now_ms).1 in
      ground (
        arith,
        stop_alarm-quiet s s.last_controller now_ms,
        publish_state-quiet stopped s.last_controller now_ms,
      )

  report_warning-quiet :
      (s : SecurityServer S H P) (now_ms : ℕ) → IsQuiet left s.node (report_warning s now_ms).node
  unfolding report_warning
  report_warning-quiet s now_ms =
      ground (arith, publish_event-quiet s Event.shock_warning s.last_controller now_ms)

  report_trigger-quiet :
      (s : SecurityServer S H P) (now_ms : ℕ) → IsQuiet left s.node (report_trigger s now_ms).node
  unfolding report_trigger
  report_trigger-quiet s now_ms =
      let told = (publish_event s Event.shock_trigger s.last_controller now_ms).1 in
      let (started, s') = start_alarm told s.last_controller now_ms in
      ground (
        arith,
        publish_event-quiet s Event.shock_trigger s.last_controller now_ms,
        start_alarm-quiet told s.last_controller now_ms,
        publish_state-quiet s' s.last_controller now_ms,
      )

  pub service-quiet :
      (s : SecurityServer S H P) (now_ms : ℕ) → IsQuiet left s.node (service s now_ms).node
  unfolding service update_start_inhibit sample_inputs set_start_inhibit
  service-quiet s now_ms =
      let s₀ = sample_inputs s now_ms in
      let s₁ = update_start_inhibit (complete_lock s₀ now_ms) in
      let s₂ = expire_alarm s₁ now_ms in
      ground (
        arith,
        complete_lock-quiet s₀ now_ms,
        expire_alarm-quiet s₁ now_ms,
        report_warning-quiet s₂ now_ms,
        report_trigger-quiet (report_warning s₂ now_ms) now_ms,
      )
