-- ===== src/Arduino.antt =====
-- What the ESP32 boards use of the Arduino core, as parameters, and the class
-- `ArduinoSerialTransport`, which esp32/lighting/include/lighting_platform.hpp,
-- esp32/northbridge/include/northbridge_platform.hpp and
-- esp32/security/include/security_platform.hpp each declare alike.
pub mod Fifo
pub mod Pins
pub mod Rounds
pub mod Tests
use motorcycle_computer.Base.{
  ℕ, zero, suc, Bool, List, [], ◌∷◌, Option, none, some, length, u8, ◌==◌, if◌then◌else◌,
}
use motorcycle_computer.Transport.{Transport}

-- The modes of the pins, of which the code uses these.
pub data PinMode : Type 0 where
  output input_pulldown input_pullup : PinMode

-- `digitalWrite`, `digitalRead` and `pinMode`; a level is true when high.
pub record Board (B : Type 0) : Type 0 where
  pub digital_write : B → ℕ → Bool → B
  pub digital_read : B → ℕ → Bool
  pub pin_mode : B → ℕ → PinMode → B

-- `HardwareSerial`: `begin` with the baud rate and the two pins, in the mode 8N1; the number of
-- bytes that `write` took; `available` and `availableForWrite`; and `read`, with `none` for a
-- negative value.
pub record HardwareSerial (P : Type 0) : Type 0 where
  pub begin : P → ℕ → ℕ → ℕ → P
  pub write : P → List ℕ → ℕ × P
  pub available : P → ℕ
  pub available_for_write : P → ℕ
  pub read : P → Option ℕ × P

pub record ArduinoSerialTransport (P : Type 0) : Type 0 where
  pub serial : P

module _ {P : Type 0} ⦃hs : HardwareSerial P⦄ where
  -- The loop of `read`, for as many bytes as there is room for.
  unfoldable pub receive : ℕ → P → List ℕ × P
  receive zero serial = ([], serial)
  receive (suc room) serial =
      let (value, serial') = hs.read serial in
      let rest = receive room serial' in
      if hs.available serial == 0
      then ([], serial)
      else elim value [ none ↦ ([], serial') | some byte ↦ (u8 byte ∷ rest.0, rest.1) ]

  instance abbrev pub serial_transport : Transport (ArduinoSerialTransport P)
  serial_transport = record {
    write = λ s frame.
        let (taken, serial) = hs.write s.serial frame in
        (taken == length frame, record { serial = serial });
    read = λ s capacity.
        let (bytes, serial) = receive capacity s.serial in (bytes, record { serial = serial });
  }
