-- ===== src/Security/Server/Reach.antt =====
-- Everything that can happen to the security server between two looks at it.
use motorcycle_computer.Base.{ℕ, ◌≡◌, arith, false, not, ◌&&◌, Option}
use motorcycle_computer.Protocol.Packet.{Packet}
use motorcycle_computer.Transport.{Transport}
use motorcycle_computer.Node.{BikeNode}
use motorcycle_computer.Security.{SecurityHardware, SecurityPersistence}
use motorcycle_computer.Security.Server.{
  SecurityServer, new_server, is_armed, is_alarm, restore_persisted_state,
}
use motorcycle_computer.Security.Server.Handlers.{handle_packet, service}
use motorcycle_computer.Security.Server.Outputs.{IsLatching, IsSafe}
use motorcycle_computer.Security.Server.Safety.{
  handle_packet-IsSafe, service-IsSafe, restore_persisted_state-IsSafe,
}

module _ {S H P : Type 0} ⦃t : Transport S⦄ ⦃hw : SecurityHardware H⦄
    ⦃ps : SecurityPersistence P⦄ where
  -- The inputs change by themselves, the outputs do not; the node is used by the controller too.
  pub data Step (s : SecurityServer S H P) : SecurityServer S H P → Type 0 where
    packet : (p : Packet) (now_ms : ℕ) → Step s (handle_packet s p now_ms).1
    round : (now_ms : ℕ) → Step s (service s now_ms)
    restore : (now_ms : ℕ) → Step s (restore_persisted_state s now_ms).1
    inputs :
        (h : H)
        → hw.alarm_output_active h ≡ hw.alarm_output_active s.hardware
        → hw.start_inhibit_active h ≡ hw.start_inhibit_active s.hardware
        → Step s (record s { hardware = h })
    link : (n : BikeNode S) → Step s (record s { node = n })
    intervals :
        (stop warning trigger duration : ℕ)
        → Step s (record s {
          engine_stop_confirm_ms = stop;
          warning_confirm_ms = warning;
          trigger_confirm_ms = trigger;
          alarm_duration_ms = duration;
        })

  pub data Reach (s : SecurityServer S H P) : SecurityServer S H P → Type 0 where
    here : Reach s s
    next : {u v : SecurityServer S H P} → Reach s u → Step u v → Reach s v

  module _ (l : IsLatching hw) where
    pub Step-IsSafe : {s u : SecurityServer S H P} → Step s u → IsSafe s → IsSafe u
    Step-IsSafe {s} (packet p now_ms) v = handle_packet-IsSafe l s p now_ms v
    Step-IsSafe {s} (round now_ms) v = service-IsSafe l s now_ms v.consistent
    Step-IsSafe {s} (restore now_ms) v = (restore_persisted_state-IsSafe l s now_ms).0
    Step-IsSafe (inputs h a i) v = ground (arith, a, i)
    Step-IsSafe (link n) v = ground arith
    Step-IsSafe (intervals stop warning trigger duration) v = ground arith

    pub Reach-IsSafe : {s u : SecurityServer S H P} → Reach s u → IsSafe s → IsSafe u
    Reach-IsSafe here v = v
    Reach-IsSafe (next r st) v = Step-IsSafe st (Reach-IsSafe r v)

    new_server-IsSafe :
        (n : BikeNode S) (h : H) (p : Option P)
        → hw.alarm_output_active h ≡ false
        → hw.start_inhibit_active h ≡ false
        → IsSafe (new_server n h p)
    unfolding new_server
    new_server-IsSafe n h p a i = ground (arith, a, i)

    -- With hardware that works, from a new server whose outputs are off, no sequence of packets,
    -- rounds of the main loop, restarts from the stored setting, changes of the inputs, uses of the
    -- node and changes of the intervals leads to a state in which the outputs disagree with the
    -- mode: the alarm output is on in the alarm mode only, and starting is prevented exactly when
    -- the server is locked or in alarm and the engine counts as stopped.
    pub Reach-new_server :
        (n : BikeNode S) (h : H) (p : Option P) {u : SecurityServer S H P}
        → hw.alarm_output_active h ≡ false
        → hw.start_inhibit_active h ≡ false
        → Reach (new_server n h p) u
        → (hw.alarm_output_active u.hardware ≡ is_alarm u.mode)
          × (hw.start_inhibit_active u.hardware ≡ (is_armed u.mode && not u.engine.running))
    Reach-new_server n h p a i r =
        let v = Reach-IsSafe r (new_server-IsSafe n h p a i) in (v.consistent.output, v.inhibit)
