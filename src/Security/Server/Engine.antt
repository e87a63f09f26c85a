-- ===== src/Security/Server/Engine.antt =====
-- The engine's filter: running counts at once, stopping only after an interval without a gap.
use motorcycle_computer.Base.{
  ℕ, ◌≡◌, ◌∙◌, arith, Bool, true, false, not, ◌||◌, List, [], ◌∷◌, leb, elapsed,
}
use motorcycle_computer.Transport.{Transport}
use motorcycle_computer.Security.{SecurityHardware, SecurityPersistence}
use motorcycle_computer.Security.Event
use motorcycle_computer.Security.Server.{
  SecurityServer, EngineFilter, sample_engine, sample_inputs, update_start_inhibit,
  set_alarm_output, publish_event, publish_state,
}
use motorcycle_computer.Security.Server.Operations.{start_alarm, stop_alarm}
use motorcycle_computer.Security.Server.Handlers.{
  service, complete_lock, expire_alarm, report_warning, report_trigger,
}
use motorcycle_computer.Security.Server.Outputs.{IsLatching, IsConsistent}
use motorcycle_computer.Security.Server.Safety.{service-IsSafe}

-- Samples at which the input says that the engine stands, one after another.
pub sample_stopped : EngineFilter → ℕ → List ℕ → EngineFilter
sample_stopped e confirm_ms [] = e
sample_stopped e confirm_ms (now_ms ∷ times) =
    sample_stopped (sample_engine false e confirm_ms now_ms) confirm_ms times

-- Some of the times lies the interval after the first.
abbrev pub any_confirms : ℕ → ℕ → List ℕ → Bool
any_confirms confirm_ms started_ms [] = false
any_confirms confirm_ms started_ms (now_ms ∷ times) =
    leb confirm_ms (elapsed now_ms started_ms) || any_confirms confirm_ms started_ms times

sample_stopped-standing :
    (e : EngineFilter) (confirm_ms : ℕ) (times : List ℕ)
    → e.initialized ≡ true
    → e.running ≡ false
    → (sample_stopped e confirm_ms times).running ≡ false
unfolding sample_stopped sample_engine
sample_stopped-standing e confirm_ms [] i r = r
sample_stopped-standing e confirm_ms (now_ms ∷ times) i r =
    sample_stopped-standing (sample_engine false e confirm_ms now_ms) confirm_ms times
      (ground arith) (ground arith)

sample_engine-pending :
    (e : EngineFilter) (confirm_ms now_ms : ℕ)
    → e.initialized ≡ true
    → e.running ≡ true
    → e.stop_pending ≡ true
    → let e' = sample_engine false e confirm_ms now_ms in
      (e'.initialized ≡ true)
      × (e'.stop_started_ms ≡ e.stop_started_ms)
      × (e'.running ≡ not (leb confirm_ms (elapsed now_ms e.stop_started_ms)))
      × (e'.stop_pending ≡ e'.running)
unfolding sample_engine
sample_engine-pending e confirm_ms now_ms i r p = ground arith

sample_stopped-pending :
    (e : EngineFilter) (confirm_ms : ℕ) (times : List ℕ)
    → e.initialized ≡ true
    → e.running ≡ true
    → e.stop_pending ≡ true
    → (sample_stopped e confirm_ms times).running
      ≡ not (any_confirms confirm_ms e.stop_started_ms times)
unfolding sample_stopped
sample_stopped-pending e confirm_ms [] i r p = r
sample_stopped-pending e confirm_ms (now_ms ∷ times) i r p =
    let e' = sample_engine false e confirm_ms now_ms in
    ground (
      arith,
      sample_engine-pending e confirm_ms now_ms i r p,
      sample_stopped-standing e' confirm_ms times,
      sample_stopped-pending e' confirm_ms times,
    )

sample_engine-first :
    (e : EngineFilter) (confirm_ms now_ms : ℕ)
    → e.initialized ≡ true
    → e.running ≡ true
    → e.stop_pending ≡ false
    → let e' = sample_engine false e confirm_ms now_ms in
      (e'.initialized ≡ true)
      × (e'.stop_started_ms ≡ now_ms)
      × (e'.running ≡ not (leb confirm_ms (elapsed now_ms now_ms)))
      × (e'.stop_pending ≡ e'.running)
unfolding sample_engine
sample_engine-first e confirm_ms now_ms i r p = ground arith

sample_engine-running :
    (e : EngineFilter) (confirm_ms now_ms : ℕ)
    → e.initialized ≡ true
    → let e' = sample_engine true e confirm_ms now_ms in
      (e'.initialized ≡ true) × (e'.running ≡ true) × (e'.stop_pending ≡ false)
unfolding sample_engine
sample_engine-running e confirm_ms now_ms i = ground arith

-- Once the filter has its first sample: a sample that says that the engine runs counts at once,
-- and after it a run of samples that say that it stands makes it count as stopped exactly when one
-- of them lies the confirmation interval after the first.
pub sample_stopped-confirms :
    (e : EngineFilter) (confirm_ms running_ms first_ms : ℕ) (times : List ℕ)
    → e.initialized ≡ true
    → let started = sample_engine true e confirm_ms running_ms in
      (started.running ≡ true)
      × ((sample_stopped started confirm_ms (first_ms ∷ times)).running
          ≡ not (any_confirms confirm_ms first_ms (first_ms ∷ times)))
unfolding sample_stopped
sample_stopped-confirms e confirm_ms running_ms first_ms times i =
    let started = sample_engine true e confirm_ms running_ms in
    let e' = sample_engine false started confirm_ms first_ms in
    ground (
      arith,
      sample_engine-running e confirm_ms running_ms i,
      sample_engine-first started confirm_ms first_ms,
      sample_stopped-standing e' confirm_ms times,
      sample_stopped-pending e' confirm_ms times,
    )

module _ {S H P : Type 0} ⦃t : Transport S⦄ ⦃hw : SecurityHardware H⦄
    ⦃ps : SecurityPersistence P⦄ where
  start_alarm-engine :
      (s : SecurityServer S H P) (to now_ms : ℕ) → (start_alarm s to now_ms).1.engine ≡ s.engine
  unfolding start_alarm set_alarm_output update_start_inhibit publish_event
  start_alarm-engine s to now_ms = ground arith

  stop_alarm-engine :
      (s : SecurityServer S H P) (to now_ms : ℕ) → (stop_alarm s to now_ms).1.engine ≡ s.engine
  unfolding stop_alarm set_alarm_output update_start_inhibit publish_event
  stop_alarm-engine s to now_ms = ground arith

  complete_lock-engine :
      (s : SecurityServer S H P) (now_ms : ℕ) → (complete_lock s now_ms).engine ≡ s.engine
  unfolding complete_lock publish_event publish_state
  complete_lock-engine s now_ms = ground arith

  expire_alarm-engine :
      (s : SecurityServer S H P) (now_ms : ℕ) → (expire_alarm s now_ms).engine ≡ s.engine
  unfolding expire_alarm publish_state
  expire_alarm-engine s now_ms = ground (arith, stop_alarm-engine s s.last_controller now_ms)

  report_warning-engine :
      (s : SecurityServer S H P) (now_ms : ℕ) → (report_warning s now_ms).engine ≡ s.engine
  unfolding report_warning publish_event
  report_warning-engine s now_ms = ground arith

  report_trigger-engine :
      (s : SecurityServer S H P) (now_ms : ℕ) → (report_trigger s now_ms).engine ≡ s.engine
  unfolding report_trigger publish_event publish_state
  report_trigger-engine s now_ms =
      let e = (publish_event s Event.shock_trigger s.last_controller now_ms).1 in
      ground (arith, start_alarm-engine e s.last_controller now_ms)

  -- After the sample nothing of a round changes the filter.
  service-engine :
      (s : SecurityServer S H P) (now_ms : ℕ)
      → (service s now_ms).engine ≡ (sample_inputs s now_ms).engine
  unfolding service update_start_inhibit
  service-engine s now_ms =
      report_trigger-engine _ now_ms
      ∙ report_warning-engine _ now_ms
      ∙ expire_alarm-engine _ now_ms
      ∙ complete_lock-engine (sample_inputs s now_ms) now_ms

  sample_inputs-running :
      (s : SecurityServer S H P) (now_ms : ℕ)
      → hw.engine_running s.hardware ≡ true
      → (sample_inputs s now_ms).engine.running ≡ true
  unfolding sample_inputs sample_engine
  sample_inputs-running s now_ms h = ground arith

  -- With hardware that works and outputs that agree with the mode, a round in which the input says
  -- that the engine runs leaves starting allowed, whatever the mode is.
  pub service-engine_running :
      (s : SecurityServer S H P) (now_ms : ℕ)
      → IsLatching hw
      → IsConsistent s
      → hw.engine_running s.hardware ≡ true
      → hw.start_inhibit_active (service s now_ms).hardware ≡ false
  service-engine_running s now_ms l c h = ground (
    arith,
    service-IsSafe l s now_ms c,
    service-engine s now_ms,
    sample_inputs-running s now_ms h,
  )
