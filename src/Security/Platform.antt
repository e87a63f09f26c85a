-- ===== src/Security/Platform.antt =====
-- esp32/security/include/security_platform.hpp and esp32/security/src/main.cpp: the hardware and
-- the stored setting of the ESP32 board, its `setup` and its `loop`. The calls of the Arduino core
-- and of its Preferences library are parameters.
pub mod Boot
pub mod Run
pub mod Tests
use motorcycle_computer.Base.{ℕ, Bool, true, false, ◌==◌, if◌then◌else◌, Option, none, some}
use motorcycle_computer.Arduino.{
  Board, PinMode, output, input_pulldown, HardwareSerial, ArduinoSerialTransport, serial_transport,
}
use motorcycle_computer.Node.{BikeNode, new_node, set_ack_timeout_ms, set_max_retries, set_auto_ack}
use motorcycle_computer.Protocol.Packet.NodeAddress
use motorcycle_computer.Security.{SecurityHardware, SecurityPersistence}
use motorcycle_computer.Security.Controller.Loop.{service}
use motorcycle_computer.Security.Server.{SecurityServer, new_server, restore_persisted_state}

abbrev network_rx_pin : ℕ
network_rx_pin = 16

abbrev network_tx_pin : ℕ
network_tx_pin = 17

abbrev network_baud : ℕ
network_baud = 115200

abbrev shock_warning_pin : ℕ
shock_warning_pin = 25

abbrev shock_trigger_pin : ℕ
shock_trigger_pin = 26

abbrev engine_running_pin : ℕ
engine_running_pin = 27

abbrev alarm_output_pin : ℕ
alarm_output_pin = 32

abbrev start_inhibit_pin : ℕ
start_inhibit_pin = 33

-- `Preferences`, with the only keys that the code uses.
pub record Preferences (F : Type 0) : Type 0 where
  pub begin : F → Bool × F
  pub get_armed : F → Bool
  pub put_armed : F → Bool → ℕ × F

pub record GpioSecurityHardware (B : Type 0) : Type 0 where
  pub board : B
  pub alarm : Bool
  pub inhibit : Bool

pub record PreferencesSecurityPersistence (F : Type 0) : Type 0 where
  pub preferences : F
  pub opened : Bool

module _ {B : Type 0} ⦃b : Board B⦄ where
  unfoldable pub begin_hardware : GpioSecurityHardware B → GpioSecurityHardware B
  begin_hardware h =
      let off =
        b.digital_write (b.digital_write h.board alarm_output_pin false) start_inhibit_pin false in
      let outputs = b.pin_mode (b.pin_mode off alarm_output_pin output) start_inhibit_pin output in
      let low =
        b.digital_write (b.digital_write outputs alarm_output_pin false) start_inhibit_pin false in
      let warning = b.pin_mode low shock_warning_pin input_pulldown in
      let trigger = b.pin_mode warning shock_trigger_pin input_pulldown in
      record h { board = b.pin_mode trigger engine_running_pin input_pulldown }

  instance abbrev pub gpio : SecurityHardware (GpioSecurityHardware B)
  gpio = record {
    set_alarm_output = λ h enabled. (
      true,
      record h { board = b.digital_write h.board alarm_output_pin enabled; alarm = enabled },
    );
    set_start_inhibit = λ h enabled. (
      true,
      record h { board = b.digital_write h.board start_inhibit_pin enabled; inhibit = enabled },
    );
    shock_warning_active = λ h. b.digital_read h.board shock_warning_pin;
    shock_trigger_active = λ h. b.digital_read h.board shock_trigger_pin;
    engine_running = λ h. b.digital_read h.board engine_running_pin;
    alarm_output_active = λ h. h.alarm;
    start_inhibit_active = λ h. h.inhibit;
  }

module _ {F : Type 0} ⦃f : Preferences F⦄ where
  unfoldable pub begin_persistence :
      PreferencesSecurityPersistence F → Bool × PreferencesSecurityPersistence F
  begin_persistence p =
      let (opened, preferences) = f.begin p.preferences in
      (opened, record { preferences = preferences; opened = opened })

  instance abbrev pub stored : SecurityPersistence (PreferencesSecurityPersistence F)
  stored = record {
    load_armed = λ p. if p.opened then some (f.get_armed p.preferences) else none;
    save_armed = λ p armed.
        let (written, preferences) = f.put_armed p.preferences armed in
        if p.opened then (written == 1, record p { preferences = preferences }) else (false, p);
  }

abbrev pub SecurityBoard : Type 0 → Type 0 → Type 0 → Type 0
SecurityBoard P B F =
    SecurityServer (ArduinoSerialTransport P) (GpioSecurityHardware B)
      (PreferencesSecurityPersistence F)

module _ {P B F : Type 0} ⦃hs : HardwareSerial P⦄ ⦃b : Board B⦄ ⦃f : Preferences F⦄ where
  -- The globals and `setup`: the serial port, the pins and the stored setting as the board finds
  -- them, and the time that `millis` gives.
  unfoldable pub setup : P → B → F → ℕ → SecurityBoard P B F
  setup serial board preferences now_ms =
      let transport : ArduinoSerialTransport P = record { serial = serial } in
      let hardware = begin_hardware (record { board = board; alarm = false; inhibit = false }) in
      let persistence =
        (begin_persistence (record { preferences = preferences; opened = false })).1 in
      let server =
        new_server (set_auto_ack (new_node NodeAddress.security transport) false) hardware
          (some persistence) in
      let restored = (restore_persisted_state server now_ms).1 in
      let begun =
        hs.begin restored.node.transport.serial network_baud network_rx_pin network_tx_pin in
      let node = record (restored.node) { transport = record { serial = begun } } in
      record restored { node = set_max_retries (set_ack_timeout_ms node 250) 3 }

  -- `loop`, with fuel and the time that `millis` gives.
  unfoldable pub loop : ℕ → SecurityBoard P B F → ℕ → Option (SecurityBoard P B F)
  loop fuel s now_ms = service fuel s now_ms
