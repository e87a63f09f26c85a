-- ===== src/MotorcycleComputer/Tests.antt =====
-- What the main computer knows after packets of concrete controllers.
use motorcycle_computer.MotorcycleComputer.Exchange.{sent_state, exchange-state}
use motorcycle_computer.Security.Server.{new_server, state_payload}
use motorcycle_computer.Security.Platform.Tests.{Server, wire, fresh_hardware}
use motorcycle_computer.Protocol.Packet.{max_frame_size}
use motorcycle_computer.Protocol.Codec.{encode_packet, encoded_size, frame_body, write_u16_be}
use motorcycle_computer.Protocol.Crc.{crc16_ccitt_false}
use motorcycle_computer.Node.{poll}
use motorcycle_computer.Node.Poll.{IsReceiver}
use motorcycle_computer.Node.Tests.{memory-IsBounded}
use motorcycle_computer.StreamParser.Inv.{new_parser-IsValid}
use motorcycle_computer.MotorcycleComputer.Loop.{TakesAll, service, service-dispatches}
use motorcycle_computer.MotorcycleComputer.{PacketObserver, finish_service}
use motorcycle_computer.Node.{new_node}
use motorcycle_computer.Router.Tests.{broadcast_frame}
use motorcycle_computer.SelfTest.{SelfTestRunner}
use motorcycle_computer.SelfTest.Observer.{test_observer, test_observer-IsCalm}
use motorcycle_computer.SelfTest.Tests.{asking}
use motorcycle_computer.Node.Tests.{memory-IsClosed, unread}
use motorcycle_computer.Base.{
  ℕ, ◌≡◌, ap, arith, true, false, List, [], ◌∷◌, get_or, some, length, ◌≤◌, ◌+◌, none, refl,
}
use motorcycle_computer.Protocol.Packet.{Packet}
use motorcycle_computer.Protocol.Packet.NodeAddress
use motorcycle_computer.Protocol.Packet.MessageType
use motorcycle_computer.Node.Tests.{Memory, memory, main_node}
use motorcycle_computer.Security.Server.{state_packet}
use motorcycle_computer.Security.Platform.{gpio, stored}
use motorcycle_computer.Arduino.Tests.{pins}
use motorcycle_computer.Security.Platform.Tests.{flash, sounding}
use motorcycle_computer.Lighting.{high_beam}
use motorcycle_computer.Lighting.Tests.{sensors, lamps, dark_server}
use motorcycle_computer.Lighting.Diagnostics.{new_diagnostics, diagnostics_packet, over_current}
use motorcycle_computer.Lighting.FaultManager.{LightingFaultRecord, empty_record, fault_packet}
use motorcycle_computer.MotorcycleComputer.{MotorcycleComputer, new_computer, dispatch}
use motorcycle_computer.MotorcycleComputer.Published.{from_node, dispatch-state_packet}
use motorcycle_computer.MotorcycleComputer.PublishedLighting.{
  dispatch-diagnostics_packet, dispatch-fault_packet,
}
use motorcycle_computer.MotorcycleComputer.DecodeLighting.{empty_fault}

-- An observer that notes the packets, newest first.
abbrev pub seen : PacketObserver Memory (List Packet)
seen packets n v p now_ms = (p ∷ packets, n)

abbrev pub computer : MotorcycleComputer Memory (List Packet)
unfolding new_computer
computer = new_computer main_node []

dispatch-state_packet_example :
    (dispatch seen computer
      (from_node NodeAddress.security 7 (state_packet sounding NodeAddress.main_computer))
      900).security_state.mode
    ≡ sounding.mode
dispatch-state_packet_example =
    ap (λ (m : MotorcycleComputer Memory (List Packet)). m.security_state.mode)
      (dispatch-state_packet seen computer sounding NodeAddress.main_computer 7 900)

dispatch-diagnostics_packet_example :
    (dispatch seen computer
      (from_node NodeAddress.lighting 7
        (diagnostics_packet new_diagnostics dark_server true NodeAddress.main_computer))
      900).lighting_diagnostics.valid
    ≡ true
dispatch-diagnostics_packet_example =
    ap (λ (m : MotorcycleComputer Memory (List Packet)). m.lighting_diagnostics.valid)
      (dispatch-diagnostics_packet seen computer new_diagnostics dark_server true
        NodeAddress.main_computer 7 900 (λ output. omega arith))

-- An output that drew too much, for the third time.
abbrev overloaded : LightingFaultRecord
overloaded = record empty_record {
  latched = true;
  latched_status = over_current;
  shutdown_applied = true;
  occurrence_count = 3;
}

dispatch-fault_packet_example :
    (get_or
      (dispatch seen computer
        (from_node NodeAddress.lighting 7 (fault_packet high_beam overloaded MessageType.fault))
        900).lighting_faults
      3
      empty_fault).occurrence_count
    ≡ 3
unfolding computer
dispatch-fault_packet_example =
    ap
      (λ (m : MotorcycleComputer Memory (List Packet)).
        (get_or m.lighting_faults 3 empty_fault).occurrence_count)
      (dispatch-fault_packet seen computer high_beam overloaded false 7 900 (omega arith))

-- The frame of a packet for all is on the line, and a self-test waits for the lighting controller.
abbrev testing : MotorcycleComputer Memory SelfTestRunner
unfolding new_computer
testing =
    new_computer (new_node NodeAddress.main_computer (record { rx = broadcast_frame; writes = [] }))
      asking

service-dispatches_example :
    (ps : List Packet) × (m' : MotorcycleComputer Memory SelfTestRunner) × TakesAll test_observer
      900 testing ps m'
    × (length ps ≤ 14)
    × (m'.node.rx_count ≡ 0)
    × (service test_observer (5 + 15) testing 900 ≡ some (finish_service m' 900))
unfolding new_node new_computer
service-dispatches_example =
    service-dispatches test_observer unread memory-IsClosed
      (test_observer-IsCalm unread memory-IsClosed) testing 900 15 5 (omega arith)

-- A security controller after its start.
abbrev started : Server
unfolding new_node new_server
started = new_server (new_node NodeAddress.security wire) fresh_hardware none

abbrev started_frame : List ℕ
started_frame =
    0xA5 ∷ 0x5A ∷ 1 ∷ NodeAddress.security ∷ NodeAddress.main_computer ∷ 0x71 ∷ 2 ∷ 0 ∷ 1 ∷ 6 ∷ 0
    ∷ 0 ∷ 0 ∷ 0 ∷ 0 ∷ 0 ∷ 0x49 ∷ 0x3E ∷ []

encode-started : encode_packet (sent_state started) (some max_frame_size) ≡ some started_frame
unfolding started encode_packet encoded_size frame_body write_u16_be crc16_ccitt_false state_packet
    state_payload
encode-started = refl

-- The frame is on the line to the main computer.
abbrev listening : MotorcycleComputer Memory (List Packet)
unfolding new_node
listening = record computer {
  node = new_node NodeAddress.main_computer (record { rx = started_frame; writes = [] });
}

listening-IsReceiver : IsReceiver listening.node
unfolding listening
listening-IsReceiver = record { queue = omega arith; parsing = new_parser-IsValid }

exchange-state_example : (poll listening.node 900).0 ≡ some (sent_state started)
unfolding started listening
exchange-state_example =
    (exchange-state seen started listening started_frame 800 900 refl (omega arith) encode-started
      memory-IsBounded listening-IsReceiver (refl, refl) refl refl refl).1
