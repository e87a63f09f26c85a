-- ===== src/Security/Server/Safety.antt =====
-- The outputs of the security controller agree with its mode, whatever happens.
use motorcycle_computer.Base.{ℕ, ◌≡◌, arith, Bool, true, false, not, get_or}
use motorcycle_computer.Protocol.Packet.{Packet}
use motorcycle_computer.Transport.{Transport}
use motorcycle_computer.Node.{wants_ack}
use motorcycle_computer.Security.{SecurityHardware, SecurityPersistence}
use motorcycle_computer.Security.Event
use motorcycle_computer.Security.Server.{
  SecurityServer, sample_inputs, update_start_inhibit, publish_event, publish_state,
  restore_persisted_state,
}
use motorcycle_computer.Security.Server.Operations.{set_locked, start_alarm, stop_alarm}
use motorcycle_computer.Security.Server.Handlers.{
  run_command, acknowledge, handle_command, handle_packet, complete_lock, expire_alarm,
  report_warning, report_trigger, service,
}
use motorcycle_computer.Security.Server.Outputs.{
  IsLatching, IsConsistent, IsSafe, sample_inputs-IsConsistent, update_start_inhibit-IsSafe,
  unlock_sampled-IsSafe, lock_sampled-IsSafe, publish_event-IsSafe, publish_state-IsSafe,
  stop_alarm-IsSafe, start_alarm-IsSafe,
}

module _ {S H P : Type 0} ⦃t : Transport S⦄ ⦃hw : SecurityHardware H⦄
    ⦃ps : SecurityPersistence P⦄ where
  module _ (l : IsLatching hw) where
    -- With hardware that works, restoring the stored setting, from any state, makes the outputs
    -- agree with the mode and leaves starting allowed.
    pub restore_persisted_state-IsSafe :
        (s : SecurityServer S H P) (now_ms : ℕ)
        → IsSafe (restore_persisted_state s now_ms).1
          × (hw.start_inhibit_active (restore_persisted_state s now_ms).1.hardware ≡ false)
    unfolding restore_persisted_state
    restore_persisted_state-IsSafe s now_ms = ground (
      arith,
      l.alarm_reads s.hardware false,
      l.inhibit_reads (hw.set_alarm_output s.hardware false).1 false,
      l.inhibit_alone (hw.set_alarm_output s.hardware false).1 false,
    )

    set_locked-IsSafe :
        (s : SecurityServer S H P) (b : Bool) (now_ms : ℕ)
        → IsConsistent s
        → IsSafe (set_locked s b now_ms).1
    unfolding set_locked
    set_locked-IsSafe s false now_ms c = unlock_sampled-IsSafe l (sample_inputs s now_ms) now_ms
    set_locked-IsSafe s true now_ms c =
        lock_sampled-IsSafe l (sample_inputs s now_ms) now_ms
          (sample_inputs-IsConsistent s now_ms c).1

    run_command-IsSafe :
        (s : SecurityServer S H P) (code source now_ms : ℕ)
        → IsSafe s
        → IsSafe (run_command s code source now_ms).1
    unfolding run_command
    run_command-IsSafe s code source now_ms v =
        let q = sample_inputs s now_ms in
        ground (
          arith,
          set_locked-IsSafe s true now_ms v.consistent,
          set_locked-IsSafe s false now_ms v.consistent,
          stop_alarm-IsSafe l s source now_ms v.consistent,
          publish_state-IsSafe l (update_start_inhibit q) source now_ms (
              update_start_inhibit-IsSafe l q (sample_inputs-IsConsistent s now_ms v.consistent).0),
        )

    acknowledge-IsSafe :
        (s : SecurityServer S H P) (to sequence : ℕ) (nack : Bool)
        → IsSafe s
        → IsSafe (acknowledge s to sequence nack)
    unfolding acknowledge
    acknowledge-IsSafe s to sequence nack v = ground arith

    handle_command-IsSafe :
        (s : SecurityServer S H P) (code source sequence : ℕ) (ack_required : Bool) (now_ms : ℕ)
        → IsSafe s
        → IsSafe (handle_command s code source sequence ack_required now_ms).1
    unfolding handle_command
    handle_command-IsSafe s code source sequence ack_required now_ms v =
        let q = record s { last_controller = source } in
        let r = run_command q code source now_ms in
        let a = acknowledge r.1 source sequence (not r.0) in
        ground (
          arith,
          run_command-IsSafe q code source now_ms (ground (arith, v)),
          acknowledge-IsSafe r.1 source sequence (not r.0),
          publish_state-IsSafe l a source now_ms,
          publish_state-IsSafe l r.1 source now_ms,
        )

    -- Whatever packet arrives, the outputs agree with the mode afterwards.
    pub handle_packet-IsSafe :
        (s : SecurityServer S H P) (p : Packet) (now_ms : ℕ)
        → IsSafe s
        → IsSafe (handle_packet s p now_ms).1
    unfolding handle_packet
    handle_packet-IsSafe s p now_ms v = ground (
      arith,
      acknowledge-IsSafe s p.source p.sequence true v,
      handle_command-IsSafe s (get_or p.payload 0 0) p.source p.sequence (wants_ack p) now_ms v,
    )

    pub complete_lock-IsConsistent :
        (s : SecurityServer S H P) (now_ms : ℕ)
        → IsConsistent s
        → IsConsistent (complete_lock s now_ms)
    unfolding complete_lock publish_event publish_state
    complete_lock-IsConsistent s now_ms c = ground arith

    expire_alarm-IsSafe :
        (s : SecurityServer S H P) (now_ms : ℕ) → IsSafe s → IsSafe (expire_alarm s now_ms)
    unfolding expire_alarm
    expire_alarm-IsSafe s now_ms v = ground (
      arith,
      stop_alarm-IsSafe l s s.last_controller now_ms v.consistent,
      publish_state-IsSafe l (stop_alarm s s.last_controller now_ms).1 s.last_controller now_ms,
    )

    report_warning-IsSafe :
        (s : SecurityServer S H P) (now_ms : ℕ) → IsSafe s → IsSafe (report_warning s now_ms)
    unfolding report_warning
    report_warning-IsSafe s now_ms v =
        ground (arith, publish_event-IsSafe l s Event.shock_warning s.last_controller now_ms v)

    report_trigger-IsSafe :
        (s : SecurityServer S H P) (now_ms : ℕ) → IsSafe s → IsSafe (report_trigger s now_ms)
    unfolding report_trigger
    report_trigger-IsSafe s now_ms v =
        let e = (publish_event s Event.shock_trigger s.last_controller now_ms).1 in
        let a = (start_alarm e s.last_controller now_ms).1 in
        ground (
          arith,
          publish_event-IsSafe l s Event.shock_trigger s.last_controller now_ms v,
          start_alarm-IsSafe l e s.last_controller now_ms,
          publish_state-IsSafe l a s.last_controller now_ms,
        )

    -- Nor does a round of the main loop break it.
    pub service-IsSafe :
        (s : SecurityServer S H P) (now_ms : ℕ) → IsConsistent s → IsSafe (service s now_ms)
    unfolding service
    service-IsSafe s now_ms c =
        let locked_in = complete_lock (sample_inputs s now_ms) now_ms in
        let updated = update_start_inhibit-IsSafe l locked_in (
          complete_lock-IsConsistent (sample_inputs s now_ms) now_ms
            (sample_inputs-IsConsistent s now_ms c).0) in
        let done = report_trigger-IsSafe _ now_ms (
          report_warning-IsSafe _ now_ms
            (expire_alarm-IsSafe (update_start_inhibit locked_in) now_ms updated)) in
        ground (arith, done)
