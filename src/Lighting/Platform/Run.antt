-- ===== src/Lighting/Platform/Run.antt =====
-- The lighting board from `setup` on, round after round of `loop`.
use motorcycle_computer.Base.{
  ℕ, suc, ◌≡◌, ◌∙◌, refl, arith, Bool, false, not, List, Option, some, All, All-replicate,
}
use motorcycle_computer.Arduino.{Board, HardwareSerial, ArduinoSerialTransport, serial_transport}
use motorcycle_computer.Arduino.Fifo.{IsFifo, unread, serial_transport-IsClosed}
use motorcycle_computer.Arduino.Pins.{IsDriving}
use motorcycle_computer.Arduino.Rounds.{Round, run, followed_by-Ended, run-Ended}
use motorcycle_computer.Node.Drain.{Ended, Ended-map, load}
use motorcycle_computer.Protocol.Packet.NodeAddress
use motorcycle_computer.Lighting.{
  LightingOutput, left_indicator, right_indicator, brake_bright, high_beam,
}
use motorcycle_computer.Lighting.Server.{LightingServer, LightingState, state_value, actual_state}
use motorcycle_computer.Lighting.LocalControl
use motorcycle_computer.Lighting.LocalControl.{
  LightingLocalControl, new_local_control, set_blink_half_period_ms,
}
use motorcycle_computer.Lighting.LocalControl.Asked.{
  Readings, readings, AreSampled, AreSampled-readings, IsBlinking, AreAsked, IsReady,
}
use motorcycle_computer.Lighting.LocalControl.Lamps.{service-lamps}
use motorcycle_computer.Lighting.FaultManager
use motorcycle_computer.Lighting.FaultManager.{
  set_confirm_samples, LightingFaultRecord, empty_record,
}
use motorcycle_computer.Lighting.Controller.{new_controller}
use motorcycle_computer.Lighting.Controller.Loop
use motorcycle_computer.Lighting.Platform.{
  LightingBoard, GpioLightingHardware, GpioLightingInputs, gpio_outputs, gpio_inputs, no_feedback,
  unavailable, left_indicator_pin, right_indicator_pin, brake_bright_pin, high_beam_pin, pin_for,
  setup, loop, loop_locally, begin_inputs, begin_hardware,
}
use motorcycle_computer.Lighting.Platform.Pins.{
  IsDriven, KeepsOutputs, gpio_outputs-IsSwitching, write_output-IsDriven, ReadsAs,
  write_output-ReadsAs, begin_hardware-IsDriven, begin_inputs-KeepsOutputs,
}
use motorcycle_computer.Lighting.Platform.Kept.{service-kept, local_service-kept}
use motorcycle_computer.Lighting.Platform.NoFaults.{
  NoneLatched, service-unavailable, diagnostics_service-hardware,
}

-- What the name of `set_debounce_ms` says.
abbrev pub IsSetter : (LightingLocalControl → ℕ → LightingLocalControl) → Type 0
IsSetter set_debounce_ms =
    (c : LightingLocalControl) (ms : ℕ) → set_debounce_ms c ms ≡ record c { input_debounce_ms = ms }

module _ {P B : Type 0} where
  abbrev pub between : LightingBoard P B → Round P B → LightingBoard P B
  between l r =
      let s = l.server in
      record l {
        server = record s {
          node = record (s.node) {
            transport = record (s.node.transport) { serial = r.arrive s.node.transport.serial };
          };
          hardware = record (s.hardware) { board = r.change s.hardware.board };
        };
      }

  -- The levels of the lamps' pins.
  abbrev pub levels : (B → ℕ → Bool) → LightingBoard P B → LightingState
  levels level l = record {
    left = level l.server.hardware.board left_indicator_pin;
    right = level l.server.hardware.board right_indicator_pin;
    brake = level l.server.hardware.board brake_bright_pin;
    high = level l.server.hardware.board high_beam_pin;
  }

  abbrev pub IsSound : (B → ℕ → Bool) → LightingBoard P B → Type 0
  IsSound level l =
      IsDriven level l.server.hardware × NoneLatched l.fault_manager × IsReady l.local_control

-- The switches, each of which is on while its pin is low.
abbrev pub switches : {B : Type 0} ⦃b : Board B⦄ → B → Readings
switches ⦃b⦄ board = record {
  left = not (b.digital_read board 18);
  right = not (b.digital_read board 19);
  front_brake = not (b.digital_read board 21);
  rear_brake = not (b.digital_read board 23);
  high = not (b.digital_read board 22);
}

module _ {P B : Type 0} ⦃b : Board B⦄ where
  -- From one state to the next: the switches are debounced from the pins' readings, the blinking
  -- phase goes on, the level of every lamp's pin is what the switches and the commands ask for, and
  -- no fault is latched.
  abbrev pub IsLit : (B → ℕ → Bool) → LightingBoard P B → ℕ → LightingBoard P B → Type 0
  IsLit level l now_ms l' =
      AreSampled l.local_control (switches l.server.hardware.board) now_ms l'.local_control
      × IsBlinking l.local_control now_ms l'.local_control
      × AreAsked l'.local_control l'.server.commanded (levels level l')
      × NoneLatched l'.fault_manager

module _ {P B : Type 0} ⦃hs : HardwareSerial P⦄ ⦃b : Board B⦄ (held : P → List ℕ) where
  -- A round, with one unit of fuel more than the packets and bytes that it finds.
  abbrev pub lighting_round : LightingBoard P B → Round P B → Option (LightingBoard P B)
  lighting_round l r =
      let l' = between l r in loop (suc (load (unread held) l'.server.node)) l' r.now_ms

module _ {B : Type 0} ⦃b : Board B⦄ (level : B → ℕ → Bool) (d : IsDriving b level) where
  switches-ReadsAs :
      (board : B) (h : GpioLightingHardware B)
      → ReadsAs level d board h
      → readings gpio_inputs (record { board = h.board }) ≡ switches board
  switches-ReadsAs board h same = ground (
    arith,
    same 18 (λ output. ground arith),
    same 19 (λ output. ground arith),
    same 21 (λ output. ground arith),
    same 22 (λ output. ground arith),
    same 23 (λ output. ground arith),
  )

module _ {P B : Type 0} ⦃hs : HardwareSerial P⦄ ⦃b : Board B⦄ (level : B → ℕ → Bool)
    (d : IsDriving b level) where
  setup-IsSound :
      (set_debounce_ms : LightingLocalControl → ℕ → LightingLocalControl) (serial : P) (board : B)
      → IsSetter set_debounce_ms
      → IsSound level (setup set_debounce_ms serial board)
  unfolding setup new_controller begin_inputs begin_hardware set_confirm_samples
      set_blink_half_period_ms
  setup-IsSound set_debounce_ms serial board e =
      let h : GpioLightingHardware B = record { board = board; state = λ k. false } in
      (
        λ (output : LightingOutput).
            begin_inputs-KeepsOutputs level d (begin_hardware h).board output
            ∙ begin_hardware-IsDriven level d h (λ k. refl) output,
        All-replicate (λ (r : LightingFaultRecord). r.latched ≡ false) 4 empty_record refl,
        rw (e (set_blink_half_period_ms new_local_control 500) 25) (refl, omega arith),
      )

  -- The outputs that a server reads back are the levels of the pins.
  level-actual_state :
      (s : LightingServer (ArduinoSerialTransport P) (GpioLightingHardware B))
      (output : LightingOutput)
      → IsDriven level s.hardware
      → level s.hardware.board (pin_for output) ≡ state_value (actual_state s) output
  unfolding actual_state
  level-actual_state s output v = ground (arith, v output)

  loop_locally-IsLit :
      (l : LightingBoard P B)
      (s : LightingServer (ArduinoSerialTransport P) (GpioLightingHardware B)) (now_ms : ℕ)
      → IsDriven level s.hardware
      → ReadsAs level d l.server.hardware.board s.hardware
      → NoneLatched l.fault_manager
      → IsReady l.local_control
      → IsSound level (loop_locally l s now_ms) × IsLit level l now_ms (loop_locally l s now_ms)
  unfolding loop_locally
  loop_locally-IsLit l s now_ms v same n ready =
      let inputs : GpioLightingInputs B = record { board = s.hardware.board } in
      let (local_control, s₁) = LocalControl.service l.local_control s inputs now_ms in
      let (fault_manager, s₂) =
        FaultManager.service l.fault_manager s₁ l.diagnostics no_feedback now_ms in
      let lamps = service-lamps l.local_control s inputs now_ms gpio_outputs-IsSwitching ready in
      let kept =
        local_service-kept (IsDriven level) l.local_control s inputs now_ms
          (write_output-IsDriven level d) v in
      let faults = service-unavailable l.fault_manager s₁ l.diagnostics now_ms n in
      let sent = diagnostics_service-hardware l.diagnostics s₂ now_ms NodeAddress.main_computer in
      let read = switches-ReadsAs level d l.server.hardware.board s.hardware same in
      let asked : AreAsked local_control (loop_locally l s now_ms).server.commanded
          (levels level (loop_locally l s now_ms)) =
        (
          ground (arith, level-actual_state s₁ left_indicator kept, lamps, faults, sent),
          ground (arith, level-actual_state s₁ right_indicator kept, lamps, faults, sent),
          ground (arith, level-actual_state s₁ brake_bright kept, lamps, faults, sent),
          ground (arith, level-actual_state s₁ high_beam kept, lamps, faults, sent),
        ) in
      let sampled : AreSampled l.local_control (switches l.server.hardware.board) now_ms
          local_control =
        AreSampled-readings l.local_control local_control _ _ now_ms read lamps.0 in
      (
        (λ (output : LightingOutput). ground (arith, kept output, faults, sent), faults.0, lamps.2),
        (sampled, lamps.1, asked, faults.0),
      )

module _ {P B : Type 0} ⦃hs : HardwareSerial P⦄ ⦃b : Board B⦄ (held : P → List ℕ)
    (fifo : IsFifo hs held) (level : B → ℕ → Bool) (d : IsDriving b level) where
  lighting_round-IsLit :
      (l : LightingBoard P B) (r : Round P B)
      → KeepsOutputs level r.change
      → IsSound level l
      → Ended
          (λ (l' : LightingBoard P B). IsSound level l' × IsLit level (between l r) r.now_ms l')
          (lighting_round held l r)
  unfolding loop
  lighting_round-IsLit l r k v =
      let l' = between l r in
      let Kept = λ (h : GpioLightingHardware B).
        IsDriven level h × ReadsAs level d l'.server.hardware.board h in
      followed_by-Ended
        (λ (s : LightingServer (ArduinoSerialTransport P) (GpioLightingHardware B)).
          Kept s.hardware)
        _ (Loop.service (suc (load (unread held) l'.server.node)) l'.server r.now_ms)
        (λ s. some (loop_locally l' s r.now_ms))
        (λ s w. loop_locally-IsLit level d l' s r.now_ms w.0 w.1 v.1 v.2)
        (service-kept Kept
          (λ h output enabled w. (
            write_output-IsDriven level d h output enabled w.0,
            write_output-ReadsAs level d l'.server.hardware.board h output enabled w.1,
          ))
          (unread held) (serial_transport-IsClosed held fifo) l'.server r.now_ms
          (suc (load (unread held) l'.server.node))
          (
            λ (output : LightingOutput). k l.server.hardware.board output ∙ v.0 output,
            λ pin _. refl,
          )
          (omega arith))

module _ {P B : Type 0} ⦃hs : HardwareSerial P⦄ ⦃b : Board B⦄ (held : P → List ℕ)
    (level : B → ℕ → Bool) where
  -- Over a serial port that holds the bytes that have come in, gives them in order and keeps them
  -- when it is written to, pins whose levels only writes and modes of these pins change and whose
  -- readings other pins' writes leave, and a `set_debounce_ms` that sets the debounce time, the
  -- lighting board runs for ever: from `setup` on, every round of `loop` ends, with one unit of fuel
  -- more than the queued packets and the bytes that it finds, whatever came in and however the input
  -- pins changed. In a round that follows any others, each of the five switches is debounced from the
  -- reading of its own pin, on while it is low; while an indicator stays on the blinking phase changes
  -- once half a period has gone, and else it is on; the pins of the left and the right lamp have the
  -- level of that phase when their switch is on and else the commanded one, that of the brake light
  -- is high with either brake or the command and that of the high beam with its switch or the
  -- command; and no fault is latched.
  pub run-IsLit :
      (set_debounce_ms : LightingLocalControl → ℕ → LightingLocalControl) (serial : P) (board : B)
      (rounds : List (Round P B)) (last : Round P B)
      → IsSetter set_debounce_ms
      → IsFifo hs held
      → IsDriving b level
      → All (λ (r : Round P B). KeepsOutputs level r.change) rounds
      → KeepsOutputs level last.change
      → Ended
          (λ l. Ended (IsLit level (between l last) last.now_ms) (lighting_round held l last))
          (run (lighting_round held) (setup set_debounce_ms serial board) rounds)
  run-IsLit set_debounce_ms serial board rounds last e fifo d k kl =
      Ended-map (IsSound level) _
        (run (lighting_round held) (setup set_debounce_ms serial board) rounds)
        (λ (l : LightingBoard P B) v.
          Ended-map
            (λ (l' : LightingBoard P B).
              IsSound level l' × IsLit level (between l last) last.now_ms l')
            (IsLit level (between l last) last.now_ms) _ (λ l' w. w.1)
            (lighting_round-IsLit held fifo level d l last kl v))
        (run-Ended (lighting_round held) (IsSound level)
          (λ (r : Round P B). KeepsOutputs level r.change) (setup set_debounce_ms serial board)
          rounds
          (λ l r m v.
            Ended-map
              (λ (l' : LightingBoard P B). IsSound level l' × IsLit level (between l r) r.now_ms l')
              (IsSound level) _ (λ l' w. w.0) (lighting_round-IsLit held fifo level d l r m v))
          k (setup-IsSound level d set_debounce_ms serial board e))
