-- ===== src/Security/Platform/Tests.antt =====
-- Tests of the security controller on a board in memory, the runs of
-- tests/security_server_test.cpp, and the theorems at concrete servers.
use motorcycle_computer.Security.Controller.Loop
use motorcycle_computer.Security.Controller.Loop.{put_node, put_node-IsSafe}
use motorcycle_computer.Router.Tests.{broadcast_frame}
use motorcycle_computer.Node.Tests.{memory-IsClosed, unread}
use motorcycle_computer.Base.{
  ℕ, ◌+◌, ◌≡◌, inl, refl, arith, Bool, true, false, not, ◌&&◌, none, List, [], ◌∷◌, ◌++◌, replicate,
}
use motorcycle_computer.Protocol.Packet.{Packet, empty_packet}
use motorcycle_computer.Protocol.Packet.NodeAddress
use motorcycle_computer.Protocol.Packet.MessageType
use motorcycle_computer.Node.{new_node}
use motorcycle_computer.Node.Tests.{Memory, memory}
use motorcycle_computer.Security.{alarm}
use motorcycle_computer.Security.Command
use motorcycle_computer.Arduino.{serial_transport}
use motorcycle_computer.Arduino.Tests.{pins, Port, port, held, port-IsFifo, level, pins-IsDriving}
use motorcycle_computer.Arduino.Rounds.{Round, run}
use motorcycle_computer.Node.Drain.{Ended}
use motorcycle_computer.Security.Platform.Run.{AreSafeOutputs, board_round, run-ends_safely}
use motorcycle_computer.Security.Platform.{
  Preferences, GpioSecurityHardware, PreferencesSecurityPersistence, gpio, stored, setup,
}
use motorcycle_computer.Security.Platform.Boot.{gpio-IsLatching}
use motorcycle_computer.Security.Server.{
  SecurityServer, new_server, sample_engine, is_alarm, is_armed,
}
use motorcycle_computer.Security.Server.Handlers.{handle_packet, service}
use motorcycle_computer.Security.Server.Outputs.{IsConsistent, IsSafe}
use motorcycle_computer.Security.Server.Reach.{packet, round, here, next, Reach-new_server}
use motorcycle_computer.Security.Server.Engine.{
  sample_stopped, any_confirms, sample_stopped-confirms,
}

instance abbrev pub flash : Preferences Bool
flash = record {
  begin = λ armed. (true, armed);
  get_armed = λ armed. armed;
  put_armed = λ armed value. (1, value);
}

abbrev pub Server : Type 0
Server =
    SecurityServer Memory (GpioSecurityHardware (List (ℕ × Bool)))
      (PreferencesSecurityPersistence Bool)

abbrev pub wire : Memory
wire = record { rx = []; writes = [] }

abbrev pub fresh_hardware : GpioSecurityHardware (List (ℕ × Bool))
fresh_hardware = record { board = []; alarm = false; inhibit = false }

abbrev pub fresh : Server
unfolding new_node new_server
fresh = new_server (new_node NodeAddress.security wire) fresh_hardware none

abbrev lock_packet : Packet
lock_packet = record empty_packet {
  source = NodeAddress.main_computer;
  destination = NodeAddress.security;
  type = MessageType.security_command;
  sequence = 7;
  length = 1;
  payload = Command.lock ∷ replicate 127 0;
}

abbrev standing : List (ℕ × Bool)
standing = (27, false) ∷ []

-- An alarm that began at 1000, while the engine turns and the trigger is still on.
abbrev pub sounding : Server
unfolding new_node new_server
sounding = record fresh {
  hardware = record { board = (27, true) ∷ (26, true) ∷ []; alarm = true; inhibit = true };
  mode = alarm;
  alarm_started_ms = 1000;
  alarm_timer_active = true;
  engine = record {
    running = false;
    initialized = true;
    stop_pending = false;
    stop_started_ms = 0;
  };
}

sounding-IsConsistent : IsConsistent sounding
unfolding sounding
sounding-IsConsistent = record { output = refl; timer = refl; sampled = inl refl }

sounding-IsSafe : IsSafe sounding
unfolding sounding
sounding-IsSafe = record { consistent = sounding-IsConsistent; inhibit = refl }

Reach-new_server_example :
    let s = (handle_packet (service fresh 10) lock_packet 20).1 in
    (s.hardware.alarm ≡ is_alarm s.mode)
    × (s.hardware.inhibit ≡ (is_armed s.mode && not s.engine.running))
unfolding fresh
Reach-new_server_example =
    Reach-new_server gpio-IsLatching (new_node NodeAddress.security wire) fresh_hardware none refl
      refl (next (next here (round 10)) (packet lock_packet 20))

abbrev unplugged : Port
unplugged = record { rx = []; writes = [] }

sample_stopped-confirms_example :
    let e =
      sample_engine true
        (record { running = false; initialized = true; stop_pending = false; stop_started_ms = 0 })
        250
        10 in
    (e.running ≡ true)
    × ((sample_stopped e 250 (4294967200 ∷ 100 ∷ 200 ∷ [])).running
        ≡ not (any_confirms 250 4294967200 (4294967200 ∷ 100 ∷ 200 ∷ [])))
sample_stopped-confirms_example =
    sample_stopped-confirms
      (record { running = false; initialized = true; stop_pending = false; stop_started_ms = 0 })
      250 10 4294967200 (100 ∷ 200 ∷ []) refl

-- A frame comes in and the engine starts to turn; later it stands.
abbrev day : List (Round Port (List (ℕ × Bool)))
day =
    record {
      arrive = λ p. record p { rx = p.rx ++ broadcast_frame };
      change = λ written. (27, true) ∷ written;
      now_ms = 10;
    }
    ∷ record { arrive = λ p. p; change = λ written. (27, false) ∷ written; now_ms = 300 }
    ∷ []

run-ends_safely_example :
    Ended (AreSafeOutputs level) (run (board_round held) (setup unplugged standing true 5) day)
run-ends_safely_example =
    run-ends_safely held level unplugged standing true 5 day port-IsFifo pins-IsDriving
      ((λ board. (refl, refl)), ((λ board. (refl, refl)), tt))

-- The frame of a packet for all is on the line.
abbrev called : Server
called =
    put_node sounding (new_node NodeAddress.security (record { rx = broadcast_frame; writes = [] }))

service-ends_safely_example : (Loop.service (5 + 15) called 20 ≡ Loop.service 15 called 20)
unfolding new_node
service-ends_safely_example =
    (Loop.service-ends_safely unread memory-IsClosed called 20 15 5 gpio-IsLatching
      (put_node-IsSafe sounding _ sounding-IsSafe) (omega arith)).1
