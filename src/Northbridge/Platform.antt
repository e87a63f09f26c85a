-- ===== src/Northbridge/Platform.antt =====
-- esp32/northbridge/include/northbridge_platform.hpp and esp32/northbridge/src/main.cpp: the ports
-- of the ESP32 board, its `setup` and its `loop`. The calls of the Arduino core are parameters; the
-- serial transport is that of Arduino.
pub mod Run
pub mod Tests
use motorcycle_computer.Base.{ℕ, true, ◌==◌, if◌then◌else◌}
use motorcycle_computer.Protocol.Packet.NodeAddress
use motorcycle_computer.Arduino.{HardwareSerial, ArduinoSerialTransport, serial_transport}
use motorcycle_computer.Northbridge.{
  NorthbridgeRuntime, new_runtime, attach_port, bind_node, set_topology_enforced,
}
use motorcycle_computer.Northbridge.Runtime.{service}

abbrev pub network_baud : ℕ
network_baud = 115200

abbrev pub port_pi : ℕ
port_pi = 0

abbrev pub port_lighting : ℕ
port_lighting = 1

abbrev pub port_security : ℕ
port_security = 2

abbrev pi_rx_pin : ℕ
pi_rx_pin = 4

abbrev pi_tx_pin : ℕ
pi_tx_pin = 5

abbrev lighting_rx_pin : ℕ
lighting_rx_pin = 16

abbrev lighting_tx_pin : ℕ
lighting_tx_pin = 17

abbrev security_rx_pin : ℕ
security_rx_pin = 18

abbrev security_tx_pin : ℕ
security_tx_pin = 21

-- The three transports of the board, in the order of the ports; there are no others.
abbrev pub three_transports : {P : Type 0} → P → P → P → ℕ → ArduinoSerialTransport P
three_transports pi lighting security k = record {
  serial = if k == port_pi then pi else if k == port_lighting then lighting else security;
}

module _ {P : Type 0} ⦃hs : HardwareSerial P⦄ where
  -- The globals and `setup`, with the serial ports as the board finds them.
  unfoldable pub setup : P → P → P → NorthbridgeRuntime (ArduinoSerialTransport P)
  setup pi lighting security =
      let begun =
        three_transports (hs.begin pi network_baud pi_rx_pin pi_tx_pin)
          (hs.begin lighting network_baud lighting_rx_pin lighting_tx_pin)
          (hs.begin security network_baud security_rx_pin security_tx_pin) in
      let b₁ = (attach_port (new_runtime begun) port_pi port_pi).1 in
      let b₂ = (attach_port b₁ port_lighting port_lighting).1 in
      let b₃ = (attach_port b₂ port_security port_security).1 in
      let b₄ = (bind_node b₃ NodeAddress.main_computer port_pi).1 in
      let b₅ = (bind_node b₄ NodeAddress.diagnostic_computer port_pi).1 in
      let b₆ = (bind_node b₅ NodeAddress.lighting port_lighting).1 in
      let b₇ = (bind_node b₆ NodeAddress.security port_security).1 in set_topology_enforced b₇ true

  -- `loop`, with the time that `millis` gives.
  unfoldable pub loop :
      NorthbridgeRuntime (ArduinoSerialTransport P)
      → ℕ
      → NorthbridgeRuntime (ArduinoSerialTransport P)
  loop b now_ms = service b now_ms
