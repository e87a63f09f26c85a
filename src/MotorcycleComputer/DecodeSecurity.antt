-- ===== src/MotorcycleComputer/DecodeSecurity.antt =====
-- library/src/motorcycle_computer.cpp: what the main computer reads of the security controller.
--
-- A decoder that returns false leaves the object as it was: `none`. One that returns true gives the
-- new snapshot.
use motorcycle_computer.Base.{
  ℕ, Bool, true, false, not, ◌||◌, Option, none, some, List, get_or, ltb, ◌==◌, ◌!=◌, if◌then◌else◌,
}
use motorcycle_computer.Protocol.Packet.{Packet}
use motorcycle_computer.Protocol.Packet.NodeAddress
use motorcycle_computer.Protocol.Packet.MessageType
use motorcycle_computer.Security.{SecurityMode, unlocked, locked, alarm, lock_pending, mode_to_u8}
use motorcycle_computer.Security.Event

pub record SecuritySnapshot : Type 0 where
  pub valid : Bool
  pub mode : SecurityMode
  pub start_inhibit : Bool
  pub alarm_active : Bool
  pub shock_warning : Bool
  pub shock_trigger : Bool
  pub engine_running : Bool
  pub last_event : ℕ
  pub has_event : Bool
  pub updated_at_ms : ℕ
  pub last_event_at_ms : ℕ

-- `SecuritySnapshot{}`.
abbrev pub empty_security : SecuritySnapshot
empty_security = record {
  valid = false;
  mode = unlocked;
  start_inhibit = false;
  alarm_active = false;
  shock_warning = false;
  shock_trigger = false;
  engine_running = false;
  last_event = Event.unlocked;
  has_event = false;
  updated_at_ms = 0;
  last_event_at_ms = 0;
}

-- The cast to `SecurityMode` behind its check.
abbrev pub mode_of_u8 : ℕ → Option SecurityMode
mode_of_u8 raw =
    if raw == mode_to_u8 unlocked
    then some unlocked
    else if raw == mode_to_u8 locked
    then some locked
    else if raw == mode_to_u8 alarm
    then some alarm
    else if raw == mode_to_u8 lock_pending
    then some lock_pending
    else none

-- The check of the five flags: each at most 1.
abbrev pub are_flags : List ℕ → Bool
are_flags payload = not (
    ltb 1 (get_or payload 1 0)
    || (ltb 1 (get_or payload 2 0)
        || (ltb 1 (get_or payload 3 0)
            || (ltb 1 (get_or payload 4 0) || ltb 1 (get_or payload 5 0)))))

unfoldable pub decode_security_state : SecuritySnapshot → Packet → ℕ → Option SecuritySnapshot
decode_security_state s p now_ms =
    if p.source != NodeAddress.security || (p.type != MessageType.security_state || p.length != 6)
    then none
    else elim (mode_of_u8 (get_or p.payload 0 0)) [
      | none ↦ none
      | some mode ↦
          if not (are_flags p.payload)
          then none
          else some (record s {
            mode = mode;
            start_inhibit = get_or p.payload 1 0 != 0;
            alarm_active = get_or p.payload 2 0 != 0;
            shock_warning = get_or p.payload 3 0 != 0;
            shock_trigger = get_or p.payload 4 0 != 0;
            engine_running = get_or p.payload 5 0 != 0;
            valid = true;
            updated_at_ms = now_ms;
          })
    ]

unfoldable pub decode_security_event : SecuritySnapshot → Packet → ℕ → Option SecuritySnapshot
decode_security_event s p now_ms =
    if p.source != NodeAddress.security || (p.type != MessageType.security_event || p.length != 1)
    then none
    else if ltb (get_or p.payload 0 0) Event.shock_warning
        || ltb Event.lock_pending (get_or p.payload 0 0)
    then none
    else some (record s {
      last_event = get_or p.payload 0 0;
      has_event = true;
      last_event_at_ms = now_ms;
    })
