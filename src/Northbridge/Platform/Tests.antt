-- ===== src/Northbridge/Platform/Tests.antt =====
-- The northbridge board with serial ports in memory, and the theorem at a concrete run.
use motorcycle_computer.Base.{◌≡◌, refl, arith, some, [], ◌∷◌, ◌++◌, ◌==◌, if◌then◌else◌}
use motorcycle_computer.Protocol.Packet.NodeAddress
use motorcycle_computer.Protocol.Codec.Tests.{left_on, left_on_frame}
use motorcycle_computer.Arduino.{serial_transport}
use motorcycle_computer.Arduino.Tests.{Port, port}
use motorcycle_computer.Router.{route_for}
use motorcycle_computer.Northbridge.Runtime.{handle_packet}
use motorcycle_computer.Northbridge.Platform.{setup}
use motorcycle_computer.Northbridge.Platform.Run.{
  Arrival, home, run_loop, run_loop-home, run_loop-spoofed,
}

abbrev unplugged : Port
unplugged = record { rx = []; writes = [] }

-- A command that claims to come from the main computer comes in from the security controller.
abbrev forged : Arrival Port
forged = record {
  arrive = λ k p. if k == 2 then record p { rx = p.rx ++ left_on_frame } else p;
  now_ms = 100;
}

home-left_on : home left_on.source ≡ some 0
unfolding home
home-left_on = refl

run_loop-home_example :
    route_for
      (run_loop (setup unplugged unplugged unplugged) (forged ∷ [])).router
      NodeAddress.main_computer
    ≡ some 0
run_loop-home_example =
    (run_loop-home unplugged unplugged unplugged (forged ∷ []) NodeAddress.main_computer).2 0
      home-left_on

run_loop-spoofed_example :
    let b = run_loop (setup unplugged unplugged unplugged) (forged ∷ []) in
    (handle_packet b left_on 2 200).router.transports 1 ≡ b.router.transports 1
run_loop-spoofed_example =
    (run_loop-spoofed unplugged unplugged unplugged (forged ∷ []) left_on 2 0 200 1 home-left_on
      (λ e. ground (arith, e)) (λ e. ground (arith, e))).0
