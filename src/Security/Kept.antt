-- ===== src/Security/Kept.antt =====
-- What the security controller does to its hardware: it sets the two outputs, and nothing else, so
-- that what both calls keep is kept by a whole round.
use motorcycle_computer.Base.{ℕ, ◌<◌, ◌≡◌, refl, arith, Bool, true, false, get_or, if◌then◌else◌}
use motorcycle_computer.Protocol.Packet.{Packet}
use motorcycle_computer.Transport.{Transport}
use motorcycle_computer.Node.Drain.{IsClosed, Ended, load, and_then-Ended, drain-ends}
use motorcycle_computer.Security.{SecurityHardware, SecurityPersistence, locked, alarm}
use motorcycle_computer.Security.Event
use motorcycle_computer.Security.Server.{
  SecurityServer, is_alarm, sample_inputs, update_start_inhibit, publish_event, publish_state,
  should_inhibit, set_alarm_output, set_start_inhibit, persist_armed, restore_persisted_state,
}
use motorcycle_computer.Security.Server.Operations.{
  unlock_sampled, enter_lock, lock_sampled, set_locked, start_alarm, stop_alarm,
}
use motorcycle_computer.Security.Server.Handlers
use motorcycle_computer.Security.Server.Handlers.{
  run_command, acknowledge, handle_command, handle_packet, complete_lock, expire_alarm,
  report_warning, report_trigger,
}
use motorcycle_computer.Security.Controller.{
  send_device_info, send_heartbeat, handle_system_packet, handle_polled,
}
use motorcycle_computer.Security.Controller.Loop.{
  node_of, put_node, handle_polled-load, finish_service, service,
}

-- A predicate of the hardware that the two calls keep.
pub record IsKept {H : Type 0} (hw : SecurityHardware H) (Q : H → Type 0) : Type 0 where
  pub alarm_kept : (h : H) (b : Bool) → Q h → Q (hw.set_alarm_output h b).1
  pub inhibit_kept : (h : H) (b : Bool) → Q h → Q (hw.set_start_inhibit h b).1

module _ {S H P : Type 0} ⦃t : Transport S⦄ ⦃hw : SecurityHardware H⦄ ⦃ps : SecurityPersistence P⦄
    (Q : H → Type 0) (k : IsKept hw Q) where
  update_start_inhibit-kept :
      (s : SecurityServer S H P) → Q s.hardware → Q (update_start_inhibit s).hardware
  unfolding update_start_inhibit
  update_start_inhibit-kept s q = k.inhibit_kept s.hardware (should_inhibit s) q

  set_locked-kept :
      (s : SecurityServer S H P) (lock : Bool) (now_ms : ℕ)
      → Q s.hardware
      → Q (set_locked s lock now_ms).1.hardware
  unfolding set_locked unlock_sampled lock_sampled enter_lock sample_inputs publish_event
      persist_armed set_alarm_output set_start_inhibit
  set_locked-kept s false now_ms q =
      let off = (hw.set_alarm_output s.hardware false).1 in
      ground (arith, k.inhibit_kept off false (k.alarm_kept s.hardware false q))
  set_locked-kept s true now_ms q =
      let r = enter_lock (sample_inputs s now_ms) now_ms in
      update_start_inhibit-kept r (ground (arith, k.alarm_kept s.hardware false q))

  stop_alarm-kept :
      (s : SecurityServer S H P) (to now_ms : ℕ)
      → Q s.hardware
      → Q (stop_alarm s to now_ms).1.hardware
  unfolding stop_alarm set_alarm_output publish_event
  stop_alarm-kept s to now_ms q =
      let off = (hw.set_alarm_output s.hardware false).1 in
      let q' = record s {
        hardware = off;
        alarm_timer_active = false;
        mode = if is_alarm s.mode then locked else s.mode;
      } in
      let on = k.alarm_kept s.hardware false q in
      ground (arith, on, update_start_inhibit-kept q' on)

  start_alarm-kept :
      (s : SecurityServer S H P) (to now_ms : ℕ)
      → Q s.hardware
      → Q (start_alarm s to now_ms).1.hardware
  unfolding start_alarm set_alarm_output publish_event
  start_alarm-kept s to now_ms q =
      let q' = record s {
        hardware = (hw.set_alarm_output s.hardware true).1;
        mode = alarm;
        alarm_started_ms = now_ms;
        alarm_timer_active = true;
      } in
      let on = k.alarm_kept s.hardware true q in
      ground (arith, q, on, update_start_inhibit-kept q' on)

  run_command-kept :
      (s : SecurityServer S H P) (code source now_ms : ℕ)
      → Q s.hardware
      → Q (run_command s code source now_ms).1.hardware
  unfolding run_command publish_state sample_inputs
  run_command-kept s code source now_ms q = ground (
    arith,
    q,
    set_locked-kept s true now_ms q,
    set_locked-kept s false now_ms q,
    stop_alarm-kept s source now_ms q,
    update_start_inhibit-kept (sample_inputs s now_ms) q,
  )

  handle_packet-kept :
      (s : SecurityServer S H P) (p : Packet) (now_ms : ℕ)
      → Q s.hardware
      → Q (handle_packet s p now_ms).1.hardware
  unfolding handle_packet handle_command acknowledge publish_state
  handle_packet-kept s p now_ms q =
      let s' = record s { last_controller = p.source } in
      ground (arith, q, run_command-kept s' (get_or p.payload 0 0) p.source now_ms q)

  handle_system_packet-kept :
      (s : SecurityServer S H P) (p : Packet) (now_ms : ℕ)
      → Q s.hardware
      → Q (handle_system_packet s p now_ms).1.hardware
  unfolding handle_system_packet send_device_info send_heartbeat publish_state
  handle_system_packet-kept s p now_ms q = ground (arith, q)

  handle_polled-kept :
      (s : SecurityServer S H P) (p : Packet) (now_ms : ℕ)
      → Q s.hardware
      → Q (handle_polled s p now_ms).hardware
  unfolding handle_polled
  handle_polled-kept s p now_ms q =
      let s' = (handle_system_packet s p now_ms).1 in
      let system = handle_system_packet-kept s p now_ms q in
      ground (arith, system, handle_packet-kept s' p now_ms system)

  expire_alarm-kept :
      (s : SecurityServer S H P) (now_ms : ℕ) → Q s.hardware → Q (expire_alarm s now_ms).hardware
  unfolding expire_alarm publish_state
  expire_alarm-kept s now_ms q = ground (arith, q, stop_alarm-kept s s.last_controller now_ms q)

  report_trigger-kept :
      (s : SecurityServer S H P) (now_ms : ℕ) → Q s.hardware → Q (report_trigger s now_ms).hardware
  unfolding report_trigger publish_event publish_state
  report_trigger-kept s now_ms q =
      let s' = (publish_event s Event.shock_trigger s.last_controller now_ms).1 in
      ground (arith, q, start_alarm-kept s' s.last_controller now_ms q)

  finish_service-kept :
      (s : SecurityServer S H P) (now_ms : ℕ) → Q s.hardware → Q (finish_service s now_ms).hardware
  unfolding finish_service Handlers.service complete_lock sample_inputs report_warning publish_event
      publish_state
  finish_service-kept s now_ms q =
      let completed = complete_lock (sample_inputs s now_ms) now_ms in
      let s₁ = update_start_inhibit completed in
      let s₂ = expire_alarm s₁ now_ms in
      let s₃ = report_warning s₂ now_ms in
      report_trigger-kept s₃ now_ms (
        ground (
          arith,
          expire_alarm-kept s₁ now_ms (update_start_inhibit-kept completed (ground (arith, q))),
        ))

  -- A round that ends keeps it.
  pub service-kept :
      (left : S → ℕ) (c : IsClosed t left) (s : SecurityServer S H P) (now_ms fuel : ℕ)
      → Q s.hardware
      → load left s.node < fuel
      → Ended (λ (s' : SecurityServer S H P). Q s'.hardware) (service fuel s now_ms)
  unfolding service
  service-kept left c s now_ms fuel q h =
      and_then-Ended (λ (s' : SecurityServer S H P). (s'.node.rx_count ≡ 0) × Q s'.hardware) _ _
        (λ (s' : SecurityServer S H P). finish_service s' now_ms)
        (λ (s' : SecurityServer S H P) w. finish_service-kept s' now_ms w.1)
        (drain-ends left c node_of put_node handle_polled
          (λ (s' : SecurityServer S H P). Q s'.hardware) fuel 0 s now_ms (λ y n. refl)
          (λ y p. handle_polled-load left c y p now_ms) (λ y n w. w)
          (λ y p w. handle_polled-kept y p now_ms w) q h).0

  pub restore_persisted_state-kept :
      (s : SecurityServer S H P) (now_ms : ℕ)
      → Q s.hardware
      → Q (restore_persisted_state s now_ms).1.hardware
  unfolding restore_persisted_state
  restore_persisted_state-kept s now_ms q =
      let off = (hw.set_alarm_output s.hardware false).1 in
      ground (arith, k.inhibit_kept off false (k.alarm_kept s.hardware false q))
