-- ===== src/Lib.antt =====
-- The motorcycle computer's network: two Raspberry Pi computers, a routing controller (the
-- northbridge) and two peripheral controllers (lighting and security), which speak one binary
-- protocol over serial links.
--
-- A packet is encoded into a frame with a checksum (protocol/), found again in the byte stream by a
-- parser, and sent and received by a node, which adds sequence numbers, acknowledgements, retries
-- and a queue (library/). The northbridge takes the frames from its ports, checks that a packet came
-- in where its source is bound to, and passes it on by the router's table of routes, which it
-- learns from the packets' sources. The security controller takes commands from its node and drives
-- the alarm and the output that prevents the engine from being started. The lighting controller
-- switches four outputs, on commands and by the switches of the motorcycle, measures their currents
-- and latches faults. The main computer gives each packet to the supervisor, which keeps a table of
-- what the nodes say of themselves, and to the decoders of what the other parts publish. The
-- diagnostic computer asks the three controllers for their state in a self-test.
--
-- Base                 numbers, machine words, arrays as lists, bits
-- Protocol.Packet      protocol/include/bike_protocol/packet.hpp, addresses.hpp, messages.hpp
-- Protocol.Crc         protocol/include/bike_protocol/crc16.hpp
-- Protocol.Codec       protocol/src/codec.cpp: encode_packet, decode_packet
-- Protocol.DeviceInfo  protocol/include/bike_protocol/device_info.hpp
-- StreamParser         library/src/stream_parser.cpp: StreamParser::push and reset
-- Transport            library/include/bike/transport.hpp
-- Node                 library/src/node.cpp: BikeNode; Node.Drain has the loop over poll that the
--                      rounds of the two controllers and of the main computer begin with
-- Router               library/src/router.cpp: NorthbridgeRouter; Router.Table has its loops
-- Northbridge          library/src/northbridge.cpp: NorthbridgeRuntime; Northbridge.Packets has
--                      what it sends itself, Northbridge.Runtime its service
-- Northbridge.Platform esp32/northbridge/include/northbridge_platform.hpp and
--                      esp32/northbridge/src/main.cpp: the ports, setup and loop
-- Supervisor           library/src/supervisor.cpp: NetworkSupervisor, its table and observe;
--                      Supervisor.Service has the class itself and service
-- Lighting             library/src/lighting.cpp: LightingClient
-- Lighting.Server      library/src/lighting_server.cpp: LightingServer
-- Lighting.Controller  library/src/lighting_controller.cpp: LightingController
-- Lighting.Diagnostics, Lighting.FaultManager, Lighting.LocalControl
--                      library/src/lighting_diagnostics.cpp, lighting_fault_manager.cpp and
--                      lighting_local_control.cpp, each with its class
-- Lighting.Platform    esp32/lighting/include/lighting_platform.hpp and
--                      esp32/lighting/src/main.cpp: the pins, setup and loop
-- Security             library/src/security.cpp: SecurityClient, and the abstract hardware
-- Security.Server      library/src/security_server.cpp: SecurityServer; Security.Server.Operations
--                      has set_locked, start_alarm and stop_alarm, Security.Server.Handlers
--                      has handle_command, handle_packet and service
-- Security.Controller  library/src/security_controller.cpp: SecurityController
-- Security.Platform    esp32/security/include/security_platform.hpp and
--                      esp32/security/src/main.cpp: the pins, the setting, setup and loop
-- Arduino              ArduinoSerialTransport, which the three platform headers declare alike, and
--                      what the boards use of the Arduino core; Arduino.Rounds repeats loop, and
--                      Arduino.Pins and Arduino.Fifo have what is relied on
-- PosixSerial          raspberry-pi/main-computer/src/posix_serial_transport.cpp:
--                      PosixSerialTransport
-- SelfTest             raspberry-pi/diagnostic-computer/src/self_test_runner.cpp: SelfTestRunner
-- Sketch               esp32s3C: the northbridge once more, for another board; its children Codec,
--                      Parser, Ports and Route are Protocol.cpp, Ports.cpp and Router.cpp
-- MotorcycleComputer   library/src/motorcycle_computer.cpp: MotorcycleComputer; its children
--                      DecodeLighting, DecodeNorthbridge and DecodeSecurity have the decoders
--
-- A class is a record of its members, and a method is a function from the state to the new state,
-- paired with the value that the method returns. A reference to another object is a field with that
-- object's state, or an argument where several objects share it; the ports of the router and of the
-- northbridge, which may share a transport, point into a store. The abstract classes (transport,
-- hardware, inputs, sensors, persistence) are interfaces that the operations take as instance
-- arguments, so that the theorems hold for every implementation with the properties that they name.
-- The Arduino core (serial ports and pins) and its Preferences library are such parameters too, and
-- so are the system calls on a terminal device and the functions on termios, and the function that
-- observes the main computer's packets, which may use the computer's node; the self-test that the
-- main computer sets as its observer is such a function. A round of a board that runs for ever is one
-- call of loop, before which bytes may come in and input pins change.
--
-- Two places of the code have no meaning of their own. The lighting board's setup calls
-- set_debounce_ms, which LightingLocalControl does not declare; it is an argument of the model's
-- setup. The northbridge's diagnostics are written past the end of their array when more than five
-- ports are attached; the model's state is then marked with is_undefined, and nothing is known of the
-- program from there on.
--
-- An array of bytes is a list of numbers; a cast to a w-bit type is the remainder modulo 2 ^ w, and
-- the difference of two clock readings wraps at 2 ^ 32. Enumerations over a byte are bytes where the
-- code casts received bytes to them without a check. Loops are structural recursion over the bytes,
-- the entries or the ports that they visit, but for two loops with fuel. The loop over poll: a packet
-- that poll gives was queued or takes bytes from the transport, so that the packets that are queued
-- and the bytes that the transport still has, and one more, are enough. The loop of write on a
-- terminal device: each pass sends a byte or meets an answer that the device is busy, so that the
-- bytes and these answers are enough where the answers come to an end.
--
-- Not modelled: the programs of the two computers (raspberry-pi: main.cpp, host_config.hpp and
-- diagnostic_logger.cpp), which read command lines, print what the library decodes and append to a
-- file, but for the observer that main.cpp sets (SelfTest.Observer), and the sketch's output on its
-- console.

pub mod Arduino
pub mod Base
pub mod Protocol
pub mod StreamParser
pub mod Transport
pub mod Node
pub mod Router
pub mod Northbridge
pub mod Supervisor
pub mod Lighting
pub mod Security
pub mod MotorcycleComputer
pub mod Sketch
pub mod PosixSerial
pub mod SelfTest
