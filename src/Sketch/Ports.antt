-- ===== src/Sketch/Ports.antt =====
-- esp32s3C/Ports.h, esp32s3C/Ports.cpp and esp32s3C/Config.h: the three serial links. The calls of
-- the Arduino core are parameters.
use motorcycle_computer.Base.{
  ℕ, zero, suc, ◌+◌, Bool, true, false, Option, none, some, List, [], ◌∷◌, length, replicate,
  get_or, set, u8, u32, ltb, leb, ◌==◌, if◌then◌else◌,
}
use motorcycle_computer.Arduino.{HardwareSerial}
use motorcycle_computer.Sketch.Codec.{SketchPacket, encode, max_frame}
use motorcycle_computer.Sketch.Parser
use motorcycle_computer.Sketch.Parser.{Parser, fresh_parser}

abbrev baud : ℕ
baud = 115200

abbrev pub port_count : ℕ
port_count = 3

-- `serial` holds the object that a pointer leads to, and `none` for a null pointer.
pub record Ports (P : Type 0) : Type 0 where
  pub serial : List (Option P)
  pub parsers : List Parser
  pub rx : List ℕ
  pub tx : List ℕ

-- `Ports ports;`
abbrev pub new_ports : {P : Type 0} → Ports P
new_ports = record {
  serial = replicate port_count none;
  parsers = replicate port_count fresh_parser;
  rx = replicate port_count 0;
  tx = replicate port_count 0;
}

module _ {P : Type 0} where
  -- The object of a port in range whose pointer is not null.
  abbrev pub serial_at : Ports P → ℕ → Option P
  serial_at ports port = if leb port_count port then none else get_or ports.serial port none

  unfoldable pub rx_count : Ports P → ℕ → ℕ
  rx_count ports port = if ltb port port_count then get_or ports.rx port 0 else 0

  unfoldable pub tx_count : Ports P → ℕ → ℕ
  tx_count ports port = if ltb port port_count then get_or ports.tx port 0 else 0

  unfoldable pub malformed : Ports P → ℕ → ℕ
  malformed ports port =
      if ltb port port_count then (get_or ports.parsers port fresh_parser).rejected else 0

module _ {P : Type 0} ⦃hs : HardwareSerial P⦄ where
  -- `begin`, with the three links as the board finds them.
  unfoldable pub begin : Ports P → P → P → P → Ports P
  begin ports main_uart light_uart security_uart = record ports {
    serial =
        some (hs.begin main_uart baud 4 5)
        ∷ some (hs.begin light_uart baud 6 7)
        ∷ some (hs.begin security_uart baud 15 16)
        ∷ [];
  }

  -- `send` for an encoded packet.
  unfoldable pub send_frame : Ports P → ℕ → P → List ℕ → Bool × Ports P
  send_frame ports port serial frame =
      let (written, serial') = hs.write serial frame in
      let ports' = record ports { serial = set ports.serial port (some serial') } in
      if ltb (hs.available_for_write serial) (length frame)
      then (false, ports)
      else if written == length frame
      then (true, record ports' { tx = set ports.tx port (u32 (get_or ports.tx port 0 + 1)) })
      else (false, ports')

  unfoldable pub send : Ports P → ℕ → SketchPacket → Bool × Ports P
  send ports port p = elim (serial_at ports port) [
    | none ↦ (false, ports)
    | some serial ↦ elim (encode p max_frame) [
      | none ↦ (false, ports)
      | some frame ↦ send_frame ports port serial frame
    ]
  ]

  -- `uint8_t(serial_[port]->read())`: a negative value is 255.
  abbrev pub next_byte : P → ℕ × P
  next_byte serial =
      let (value, serial') = hs.read serial in
      (elim value [ none ↦ 255 | some byte ↦ u8 byte ], serial')

  -- The loop of `receive`, with the budget left.
  unfoldable pub receive_within : ℕ → Ports P → ℕ → P → SketchPacket → Bool × Ports P × SketchPacket
  receive_within zero ports port serial p = (false, ports, p)
  receive_within (suc budget) ports port serial p =
      let (byte, serial') = next_byte serial in
      let (got, parser, q) = Parser.push (get_or ports.parsers port fresh_parser) byte p in
      let ports' = record ports {
        serial = set ports.serial port (some serial');
        parsers = set ports.parsers port parser;
      } in
      let rest = receive_within budget ports' port serial' q in
      if hs.available serial == 0
      then (false, ports, p)
      else if got
      then (true, record ports' { rx = set ports.rx port (u32 (get_or ports.rx port 0 + 1)) }, q)
      else rest

  unfoldable pub receive : Ports P → ℕ → SketchPacket → Bool × Ports P × SketchPacket
  unfolding receive_within
  receive ports port p = elim (serial_at ports port) [
    | none ↦ (false, ports, p)
    | some serial ↦ receive_within 256 ports port serial p
  ]
