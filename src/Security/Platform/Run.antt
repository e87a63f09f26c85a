-- ===== src/Security/Platform/Run.antt =====
-- The security board from `setup` on, round after round of `loop`.
use motorcycle_computer.Base.{
  ℕ, suc, ◌≡◌, ◌≢◌, ◌∙◌, refl, sym, arith, Bool, false, not, ◌&&◌, List, Option, none, some, All,
}
use motorcycle_computer.Arduino.{Board, PinMode, HardwareSerial, serial_transport}
use motorcycle_computer.Arduino.Fifo.{IsFifo, unread, serial_transport-IsClosed}
use motorcycle_computer.Arduino.Pins.{IsDriving}
use motorcycle_computer.Arduino.Rounds.{Round, run, run-Ended}
use motorcycle_computer.Node.Drain.{Ended, Ended-map, load}
use motorcycle_computer.Security.Controller.Loop.{service, service-ends_safely}
use motorcycle_computer.Security.Kept.{IsKept, service-kept, restore_persisted_state-kept}
use motorcycle_computer.Security.Platform.{
  Preferences, GpioSecurityHardware, SecurityBoard, gpio, stored, shock_warning_pin,
  shock_trigger_pin, engine_running_pin, alarm_output_pin, start_inhibit_pin, begin_hardware, setup,
  loop,
}
use motorcycle_computer.Security.Platform.Boot.{gpio-IsLatching, setup-IsSafe}
use motorcycle_computer.Security.Server.{new_server, is_armed, is_alarm}
use motorcycle_computer.Security.Server.Outputs.{IsSafe}

module _ {P B F : Type 0} where
  abbrev pub between : SecurityBoard P B F → Round P B → SecurityBoard P B F
  between s r = record s {
    node = record (s.node) {
      transport = record (s.node.transport) { serial = r.arrive s.node.transport.serial };
    };
    hardware = record (s.hardware) { board = r.change s.hardware.board };
  }

  -- The levels of the two outputs' pins are as the mode and the engine ask.
  abbrev pub AreSafeOutputs : (B → ℕ → Bool) → SecurityBoard P B F → Type 0
  AreSafeOutputs level s =
      (level s.hardware.board alarm_output_pin ≡ is_alarm s.mode)
      × (level s.hardware.board start_inhibit_pin ≡ (is_armed s.mode && not s.engine.running))

-- The pins of the two outputs have the levels that were recorded for them.
abbrev pub AreDriven : {B : Type 0} → (B → ℕ → Bool) → GpioSecurityHardware B → Type 0
AreDriven level h =
    (level h.board alarm_output_pin ≡ h.alarm) × (level h.board start_inhibit_pin ≡ h.inhibit)

-- A change of the board leaves the outputs' pins alone.
abbrev pub KeepsOutputs : {B : Type 0} → (B → ℕ → Bool) → (B → B) → Type 0
KeepsOutputs {B} level change =
    (board : B)
    → (level (change board) alarm_output_pin ≡ level board alarm_output_pin)
      × (level (change board) start_inhibit_pin ≡ level board start_inhibit_pin)

module _ {B : Type 0} ⦃b : Board B⦄ (level : B → ℕ → Bool) (d : IsDriving b level) where
  gpio-IsKept : IsKept (gpio ⦃b = b⦄) (AreDriven level)
  gpio-IsKept = record {
    alarm_kept = λ h enabled q. (
      d.written h.board alarm_output_pin enabled,
      d.unwritten h.board alarm_output_pin start_inhibit_pin enabled (omega arith) ∙ q.1,
    );
    inhibit_kept = λ h enabled q. (
      d.unwritten h.board start_inhibit_pin alarm_output_pin enabled (omega arith) ∙ q.0,
      d.written h.board start_inhibit_pin enabled,
    );
  }

  -- `begin` ends with both outputs low.
  begin_hardware-AreDriven :
      (h : GpioSecurityHardware B)
      → h.alarm ≡ false
      → h.inhibit ≡ false
      → AreDriven level (begin_hardware h)
  unfolding begin_hardware
  begin_hardware-AreDriven h a i =
      let off =
        b.digital_write (b.digital_write h.board alarm_output_pin false) start_inhibit_pin false in
      let outputs =
        b.pin_mode (b.pin_mode off alarm_output_pin PinMode.output) start_inhibit_pin
          PinMode.output in
      let alarmed = b.digital_write outputs alarm_output_pin false in
      let low = b.digital_write alarmed start_inhibit_pin false in
      let warning = b.pin_mode low shock_warning_pin PinMode.input_pulldown in
      let trigger = b.pin_mode warning shock_trigger_pin PinMode.input_pulldown in
      let kept =
        λ (pin : ℕ) (e₁ : shock_warning_pin ≢ pin) (e₂ : shock_trigger_pin ≢ pin)
            (e₃ : engine_running_pin ≢ pin).
          d.unmoded trigger engine_running_pin pin PinMode.input_pulldown e₃
          ∙ (d.unmoded warning shock_trigger_pin pin PinMode.input_pulldown e₂
              ∙ d.unmoded low shock_warning_pin pin PinMode.input_pulldown e₁) in
      (
        kept alarm_output_pin (omega arith) (omega arith) (omega arith)
            ∙ (d.unwritten alarmed start_inhibit_pin alarm_output_pin false (omega arith)
                ∙ (d.written outputs alarm_output_pin false ∙ sym a)),
        kept start_inhibit_pin (omega arith) (omega arith) (omega arith)
            ∙ (d.written alarmed start_inhibit_pin false ∙ sym i),
      )

module _ {P B F : Type 0} ⦃hs : HardwareSerial P⦄ ⦃b : Board B⦄ ⦃f : Preferences F⦄
    (held : P → List ℕ) where
  -- A round, with one unit of fuel more than the packets and bytes that it finds.
  abbrev pub board_round : SecurityBoard P B F → Round P B → Option (SecurityBoard P B F)
  board_round s r = let s' = between s r in loop (suc (load (unread held) s'.node)) s' r.now_ms

-- Two properties of a result at once.
both-Ended :
    {A : Type 0} (P Q : A → Type 0) (o : Option A)
    → Ended P o
    → Ended Q o
    → Ended (λ x. P x × Q x) o
both-Ended P Q none p q = p
both-Ended P Q (some x) p q = (p, q)

module _ {P B F : Type 0} ⦃hs : HardwareSerial P⦄ ⦃b : Board B⦄ ⦃f : Preferences F⦄
    (level : B → ℕ → Bool) where
  -- The server is safe, and its pins are driven.
  abbrev IsSound : SecurityBoard P B F → Type 0
  IsSound s = IsSafe s × AreDriven level s.hardware

  between-IsSound :
      (s : SecurityBoard P B F) (r : Round P B)
      → KeepsOutputs level r.change
      → IsSound s
      → IsSound (between s r)
  between-IsSound s r k v = (
    record {
      consistent = record {
        output = v.0.consistent.output;
        timer = v.0.consistent.timer;
        sampled = v.0.consistent.sampled;
      };
      inhibit = v.0.inhibit;
    },
    ((k s.hardware.board).0 ∙ v.1.0, (k s.hardware.board).1 ∙ v.1.1),
  )

  module _ (held : P → List ℕ) (fifo : IsFifo hs held) (d : IsDriving b level) where
    round-IsSound :
        (s : SecurityBoard P B F) (r : Round P B)
        → KeepsOutputs level r.change
        → IsSound s
        → Ended IsSound (board_round held s r)
    unfolding loop
    round-IsSound s r k v =
        let s' = between s r in
        let fuel = suc (load (unread held) s'.node) in
        let v' = between-IsSound s r k v in
        let closed = serial_transport-IsClosed held fifo in
        both-Ended IsSafe (λ (x : SecurityBoard P B F). AreDriven level x.hardware)
          (service fuel s' r.now_ms)
          (Ended-map (λ (x : SecurityBoard P B F). (x.node.rx_count ≡ 0) × IsSafe x) IsSafe _
            (λ x w. w.1)
            (service-ends_safely (unread held) closed s' r.now_ms fuel 0 gpio-IsLatching v'.0
              (omega arith)).0)
          (service-kept (AreDriven level) (gpio-IsKept level d) (unread held) closed s' r.now_ms
            fuel v'.1 (omega arith))

    setup-IsSound :
        (serial : P) (board : B) (preferences : F) (now_ms : ℕ)
        → IsSound (setup serial board preferences now_ms)
    unfolding setup new_server
    setup-IsSound serial board preferences now_ms = (
      setup-IsSafe serial board preferences now_ms,
      restore_persisted_state-kept (AreDriven level) (gpio-IsKept level d) _ now_ms (
          begin_hardware-AreDriven level d
            (record { board = board; alarm = false; inhibit = false }) refl refl),
    )

module _ {P B F : Type 0} ⦃hs : HardwareSerial P⦄ ⦃b : Board B⦄ ⦃f : Preferences F⦄
    (held : P → List ℕ) (level : B → ℕ → Bool) where
  -- Over a serial port that holds the bytes that have come in, gives them in order and keeps them
  -- when it is written to, and pins whose levels only writes and modes of these pins change, the
  -- security board runs for ever: from `setup` on, whatever its pins and its stored setting are,
  -- every round of `loop` ends, with one unit of fuel more than the queued packets and the bytes
  -- that it finds, whatever came in and however the input pins changed, and after it the pin of the
  -- alarm output is high exactly in the alarm mode, and the pin that prevents starting exactly when the
  -- server is locked or in alarm and the engine counts as stopped.
  pub run-ends_safely :
      (serial : P) (board : B) (preferences : F) (now_ms : ℕ) (rounds : List (Round P B))
      → IsFifo hs held
      → IsDriving b level
      → All (λ (r : Round P B). KeepsOutputs level r.change) rounds
      → Ended
          (AreSafeOutputs level)
          (run (board_round held) (setup serial board preferences now_ms) rounds)
  run-ends_safely serial board preferences now_ms rounds fifo d k =
      Ended-map (IsSound level) (AreSafeOutputs level) _
        (λ s v. (v.1.0 ∙ v.0.consistent.output, v.1.1 ∙ v.0.inhibit))
        (run-Ended (board_round held) (IsSound level)
          (λ (r : Round P B). KeepsOutputs level r.change) _ rounds
          (round-IsSound level held fifo d) k
          (setup-IsSound level held fifo d serial board preferences now_ms))
