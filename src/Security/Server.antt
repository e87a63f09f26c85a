-- ===== src/Security/Server.antt =====
-- library/include/bike/security_server.hpp and library/src/security_server.cpp.
--
-- The references to the node, the hardware and the persistence are fields with their states. The
-- three members of each input filter are one record.
pub mod Operations
pub mod Handlers
pub mod Outputs
pub mod Safety
pub mod Reach
pub mod Engine
pub mod Alarm
use motorcycle_computer.Base.{
  ℕ, ◌+◌, Bool, true, false, not, ◌&&◌, ◌||◌, Option, none, some, List, [], ◌∷◌, ◌++◌, replicate,
  ltb, leb, elapsed, ◌==◌, ◌!=◌, if◌then◌else◌, get_or,
}
use motorcycle_computer.Protocol.Packet.{Packet, empty_packet, flag_response}
use motorcycle_computer.Protocol.Packet.NodeAddress
use motorcycle_computer.Protocol.Packet.MessageType
use motorcycle_computer.Transport.{Transport}
use motorcycle_computer.Node.{BikeNode, send, send_ack, wants_ack}
use motorcycle_computer.Security.{
  SecurityMode, unlocked, locked, alarm, lock_pending, mode_to_u8, SecurityHardware,
  SecurityPersistence,
}
use motorcycle_computer.Security.Command
use motorcycle_computer.Security.Event

-- One filtered input: `filtered_…_`, `…_pending_` and `…_changed_at_ms_`.
pub record Filter : Type 0 where
  pub stable : Bool
  pub pending : Bool
  pub changed_at_ms : ℕ

abbrev new_filter : Filter
new_filter = record { stable = false; pending = false; changed_at_ms = 0 }

-- The engine's filter: running at once, stopped only after an interval.
pub record EngineFilter : Type 0 where
  pub running : Bool
  pub initialized : Bool
  pub stop_pending : Bool
  pub stop_started_ms : ℕ

pub record SecurityServer (S H P : Type 0) : Type 0 where
  pub node : BikeNode S
  pub hardware : H
  pub persistence : Option P
  pub mode : SecurityMode
  pub last_controller : ℕ
  pub engine : EngineFilter
  pub recovery_requires_stop_confirmation : Bool
  pub warning : Filter
  pub trigger : Filter
  pub previous_warning : Bool
  pub previous_trigger : Bool
  pub alarm_started_ms : ℕ
  pub alarm_timer_active : Bool
  pub engine_stop_confirm_ms : ℕ
  pub warning_confirm_ms : ℕ
  pub trigger_confirm_ms : ℕ
  pub alarm_duration_ms : ℕ

-- The constructor, with the members' initial values.
unfoldable pub new_server : {S H P : Type 0} → BikeNode S → H → Option P → SecurityServer S H P
new_server node hardware persistence = record {
  node = node;
  hardware = hardware;
  persistence = persistence;
  mode = unlocked;
  last_controller = NodeAddress.main_computer;
  engine = record {
    running = false;
    initialized = false;
    stop_pending = false;
    stop_started_ms = 0;
  };
  recovery_requires_stop_confirmation = false;
  warning = new_filter;
  trigger = new_filter;
  previous_warning = false;
  previous_trigger = false;
  alarm_started_ms = 0;
  alarm_timer_active = false;
  engine_stop_confirm_ms = 250;
  warning_confirm_ms = 50;
  trigger_confirm_ms = 100;
  alarm_duration_ms = 30000;
}

-- The returned flag says whether the filtered value changed; the callers ignore it.
unfoldable pub update_filtered_assert : Bool → Filter → ℕ → ℕ → Bool × Filter
update_filtered_assert false f confirm_ms now_ms =
    (f.stable, record f { stable = false; pending = false })
update_filtered_assert true f confirm_ms now_ms =
    let g = if f.pending then f else record f { pending = true; changed_at_ms = now_ms } in
    if f.stable
    then (false, record f { pending = false })
    else if not f.pending && confirm_ms != 0
    then (false, g)
    else if ltb (elapsed now_ms g.changed_at_ms) confirm_ms
    then (false, g)
    else (true, record g { stable = true; pending = false })

-- The first half of `sample_inputs`.
unfoldable pub sample_engine : Bool → EngineFilter → ℕ → ℕ → EngineFilter
sample_engine raw_engine e confirm_ms now_ms =
    let started_ms = if e.stop_pending then e.stop_started_ms else now_ms in
    if not e.initialized
    then record e { running = raw_engine; initialized = true }
    else if raw_engine
    then record e { running = true; stop_pending = false }
    else if e.running
    then (if leb confirm_ms (elapsed now_ms started_ms)
        then record e { running = false; stop_pending = false; stop_started_ms = started_ms }
        else record e { stop_pending = true; stop_started_ms = started_ms })
    else record e { stop_pending = false }

abbrev pub is_armed : SecurityMode → Bool
is_armed locked = true
is_armed alarm = true
is_armed _ = false

abbrev pub is_locked : SecurityMode → Bool
is_locked locked = true
is_locked _ = false

abbrev pub is_alarm : SecurityMode → Bool
is_alarm alarm = true
is_alarm _ = false

abbrev pub flag_byte : Bool → ℕ
flag_byte b = if b then 1 else 0

-- The packet of `publish_event`.
unfoldable pub event_packet : ℕ → ℕ → Packet
event_packet event destination = record empty_packet {
  destination = destination;
  type = MessageType.security_event;
  length = 1;
  payload = event ∷ replicate 127 0;
}

module _ {S H P : Type 0} ⦃t : Transport S⦄ ⦃hw : SecurityHardware H⦄
    ⦃ps : SecurityPersistence P⦄ where
  -- The calls of the hardware.
  unfoldable pub set_alarm_output : SecurityServer S H P → Bool → Bool × SecurityServer S H P
  set_alarm_output s enabled =
      let (done, h) = hw.set_alarm_output s.hardware enabled in (done, record s { hardware = h })

  unfoldable pub set_start_inhibit : SecurityServer S H P → Bool → SecurityServer S H P
  set_start_inhibit s enabled = record s { hardware = (hw.set_start_inhibit s.hardware enabled).1 }

  unfoldable pub persist_armed : SecurityServer S H P → Bool → SecurityServer S H P
  persist_armed s armed = elim s.persistence [
    | none ↦ s
    | some p ↦ record s { persistence = some (ps.save_armed p armed).1 }
  ]

  -- What `load_armed` reads; false where there is nothing to read.
  unfoldable pub loaded : SecurityServer S H P → Bool
  loaded s = elim s.persistence [
    | none ↦ false
    | some p ↦ elim (ps.load_armed p) [ none ↦ false | some armed ↦ armed ]
  ]

  unfoldable pub restore_persisted_state : SecurityServer S H P → ℕ → Bool × SecurityServer S H P
  unfolding set_alarm_output set_start_inhibit loaded
  restore_persisted_state s now_ms =
      let off = record (set_start_inhibit (set_alarm_output s false).1 false) {
        alarm_timer_active = false;
      } in
      if not (loaded s)
      then (false, record off { mode = unlocked; recovery_requires_stop_confirmation = false })
      else (
        true,
        record off {
          mode = lock_pending;
          engine = record {
            running = true;
            initialized = true;
            stop_pending = false;
            stop_started_ms = now_ms;
          };
          recovery_requires_stop_confirmation = true;
          previous_warning = false;
          previous_trigger = false;
        },
      )

  unfoldable pub sample_inputs : SecurityServer S H P → ℕ → SecurityServer S H P
  sample_inputs s now_ms = record s {
    engine = sample_engine (hw.engine_running s.hardware) s.engine s.engine_stop_confirm_ms now_ms;
    warning =
        (update_filtered_assert (hw.shock_warning_active s.hardware) s.warning s.warning_confirm_ms
          now_ms).1;
    trigger =
        (update_filtered_assert (hw.shock_trigger_active s.hardware) s.trigger s.trigger_confirm_ms
          now_ms).1;
  }

  -- What counts as running before and after the first sample.
  unfoldable pub engine_counts_running : SecurityServer S H P → Bool
  engine_counts_running s =
      if s.engine.initialized then s.engine.running else hw.engine_running s.hardware

  unfoldable pub should_inhibit : SecurityServer S H P → Bool
  unfolding engine_counts_running
  should_inhibit s = is_armed s.mode && not (engine_counts_running s)

  unfoldable pub update_start_inhibit : SecurityServer S H P → SecurityServer S H P
  unfolding set_start_inhibit
  update_start_inhibit s = set_start_inhibit s (should_inhibit s)

  unfoldable pub publish_event : SecurityServer S H P → ℕ → ℕ → ℕ → Bool × SecurityServer S H P
  publish_event s event destination now_ms =
      let (sent, node) = send s.node (event_packet event destination) now_ms false in
      (sent, record s { node = node })

  -- `state` and the payload that `publish_state` makes of it.
  unfoldable pub state_payload : SecurityServer S H P → List ℕ
  unfolding engine_counts_running
  state_payload s =
      mode_to_u8 s.mode
      ∷ flag_byte (hw.start_inhibit_active s.hardware)
      ∷ flag_byte (hw.alarm_output_active s.hardware)
      ∷ flag_byte s.warning.stable
      ∷ flag_byte s.trigger.stable
      ∷ flag_byte (engine_counts_running s)
      ∷ replicate 122 0

  -- The packet of `publish_state`.
  unfoldable pub state_packet : SecurityServer S H P → ℕ → Packet
  state_packet s destination = record empty_packet {
    destination = destination;
    type = MessageType.security_state;
    flags = flag_response;
    length = 6;
    payload = state_payload s;
  }

  unfoldable pub publish_state : SecurityServer S H P → ℕ → ℕ → Bool × SecurityServer S H P
  publish_state s destination now_ms =
      let (sent, node) = send s.node (state_packet s destination) now_ms false in
      (sent, record s { node = node })
