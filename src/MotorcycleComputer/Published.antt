-- ===== src/MotorcycleComputer/Published.antt =====
-- What the security controller publishes is what the main computer knows of it afterwards.
use motorcycle_computer.Base.{ℕ, ◌≡◌, refl, arith, true, some}
use motorcycle_computer.Protocol.Packet.{Packet}
use motorcycle_computer.Protocol.Packet.NodeAddress
use motorcycle_computer.Transport.{Transport}
use motorcycle_computer.Security.{
  SecurityMode, unlocked, locked, alarm, lock_pending, mode_to_u8, SecurityHardware,
  SecurityPersistence,
}
use motorcycle_computer.Security.Server.{
  SecurityServer, state_packet, state_payload, engine_counts_running,
}
use motorcycle_computer.MotorcycleComputer.{
  PacketObserver, MotorcycleComputer, decode, decode_northbridge, decode_security, dispatch,
}
use motorcycle_computer.Supervisor.Service.{observe_packet}
use motorcycle_computer.MotorcycleComputer.DecodeLighting.{
  decode_lighting_state, decode_lighting_diagnostics, decode_lighting_fault,
}
use motorcycle_computer.MotorcycleComputer.DecodeNorthbridge.{
  decode_northbridge_diagnostics, decode_northbridge_fault,
}
use motorcycle_computer.MotorcycleComputer.DecodeSecurity.{mode_of_u8, decode_security_state}

-- A packet as its node sends it, with the source and the sequence number filled in.
abbrev pub from_node : ℕ → ℕ → Packet → Packet
from_node source sequence p = record p { source = source; sequence = sequence }

module _ {S O : Type 0} where
  -- What happens to any packet: the supervisor and the observer see it.
  abbrev pub observed :
      PacketObserver S O → MotorcycleComputer S O → Packet → ℕ → MotorcycleComputer S O
  observed notify m p now_ms =
      let supervisor = observe_packet m.supervisor p now_ms in
      let (observer, node) = notify m.observer m.node supervisor p now_ms in
      record m { supervisor = supervisor; observer = observer; node = node }

  -- A packet of the security controller passes the decoders of the others.
  decode-security :
      (m : MotorcycleComputer S O) (p : Packet) (now_ms : ℕ)
      → p.source ≡ NodeAddress.security
      → decode m p now_ms ≡ decode_security m p now_ms
  unfolding decode decode_northbridge decode_lighting_state decode_lighting_diagnostics
      decode_lighting_fault decode_northbridge_diagnostics decode_northbridge_fault
  decode-security m p now_ms h = ground arith

mode_of_u8-mode_to_u8 : (mode : SecurityMode) → mode_of_u8 (mode_to_u8 mode) ≡ some mode
mode_of_u8-mode_to_u8 unlocked = refl
mode_of_u8-mode_to_u8 locked = refl
mode_of_u8-mode_to_u8 alarm = refl
mode_of_u8-mode_to_u8 lock_pending = refl

module _ {S T O H P : Type 0} ⦃t : Transport S⦄ ⦃hw : SecurityHardware H⦄
    ⦃ps : SecurityPersistence P⦄ (notify : PacketObserver T O) where
  -- The packet that a published state is on the way, with the source and the sequence number that
  -- the node fills in, makes the main computer know the controller's mode, outputs and inputs as
  -- they were; what it knows of the other nodes and of the last event stays.
  pub dispatch-state_packet :
      (m : MotorcycleComputer T O) (s : SecurityServer S H P) (destination sequence now_ms : ℕ)
      → let p = from_node NodeAddress.security sequence (state_packet s destination) in
        dispatch notify m p now_ms ≡ record (observed notify m p now_ms) {
          security_state = record (m.security_state) {
            valid = true;
            mode = s.mode;
            start_inhibit = hw.start_inhibit_active s.hardware;
            alarm_active = hw.alarm_output_active s.hardware;
            shock_warning = s.warning.stable;
            shock_trigger = s.trigger.stable;
            engine_running = engine_counts_running s;
            updated_at_ms = now_ms;
          };
        }
  unfolding dispatch decode_security decode_security_state state_packet state_payload
  dispatch-state_packet m s destination sequence now_ms =
      let p = from_node NodeAddress.security sequence (state_packet s destination) in
      ground (
        arith,
        mode_of_u8-mode_to_u8 s.mode,
        decode-security (observed notify m p now_ms) p now_ms refl,
      )
