-- ===== src/Lighting/Platform/Tests.antt =====
-- The lighting board with its pins and its serial port in memory, and the theorem at a concrete run.
use motorcycle_computer.Base.{ℕ, refl, Bool, true, List, [], ◌∷◌, ◌++◌}
use motorcycle_computer.Arduino.{serial_transport}
use motorcycle_computer.Arduino.Rounds.{Round, run}
use motorcycle_computer.Arduino.Tests.{Port, port, held, port-IsFifo, pins, level, pins-IsDriving}
use motorcycle_computer.Node.Drain.{Ended}
use motorcycle_computer.Protocol.Codec.Tests.{left_on_frame}
use motorcycle_computer.Lighting.{left_indicator, right_indicator, brake_bright, high_beam}
use motorcycle_computer.Lighting.LocalControl.{LightingLocalControl}
use motorcycle_computer.Lighting.Platform.{setup}
use motorcycle_computer.Lighting.Platform.Pins.{KeepsOutputs}
use motorcycle_computer.Lighting.Platform.Run.{IsLit, between, lighting_round, run-IsLit}

-- The switch of the left indicator, whose input is high while it is open.
abbrev left_switch_open : List (ℕ × Bool) → List (ℕ × Bool)
left_switch_open written = (18, true) ∷ written

left_switch_open-KeepsOutputs : KeepsOutputs level left_switch_open
left_switch_open-KeepsOutputs board left_indicator = refl
left_switch_open-KeepsOutputs board right_indicator = refl
left_switch_open-KeepsOutputs board brake_bright = refl
left_switch_open-KeepsOutputs board high_beam = refl

-- The frame of a command comes in.
abbrev commanded : Round Port (List (ℕ × Bool))
commanded = record {
  arrive = λ p. record p { rx = p.rx ++ left_on_frame };
  change = left_switch_open;
  now_ms = 100;
}

abbrev later : Round Port (List (ℕ × Bool))
later = record { arrive = λ p. p; change = left_switch_open; now_ms = 200 }

abbrev unplugged : Port
unplugged = record { rx = []; writes = [] }

-- The setter that the name of the missing one stands for.
abbrev set_debounce_ms : LightingLocalControl → ℕ → LightingLocalControl
set_debounce_ms c ms = record c { input_debounce_ms = ms }

run-IsLit_example :
    Ended
      (λ l. Ended (IsLit level (between l later) 200) (lighting_round held l later))
      (run (lighting_round held) (setup set_debounce_ms unplugged []) (commanded ∷ []))
run-IsLit_example =
    run-IsLit held level set_debounce_ms unplugged [] (commanded ∷ []) later (λ c ms. refl)
      port-IsFifo pins-IsDriving (left_switch_open-KeepsOutputs, tt) left_switch_open-KeepsOutputs
