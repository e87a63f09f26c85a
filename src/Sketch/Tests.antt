-- ===== src/Sketch/Tests.antt =====
-- Tests of the sketch with serial links in memory, and the theorems at concrete packets.
use motorcycle_computer.Base.{
  All, ◌≤◌, none, get_or, length, ℕ, ◌≡◌, ◌≢◌, ◌⊎◌, refl, ap, arith, true, some, List, [], ◌∷◌, map,
  replicate,
}
use motorcycle_computer.Protocol.Packet.{Packet}
use motorcycle_computer.Protocol.Crc.{crc16_ccitt_false}
use motorcycle_computer.Protocol.Codec.{encode_packet, encoded_size, frame_body, write_u16_be}
use motorcycle_computer.Protocol.Codec.Tests.{left_on_frame}
use motorcycle_computer.StreamParser
use motorcycle_computer.StreamParser.{new_parser}
use motorcycle_computer.Arduino.Tests.{Port, port}
use motorcycle_computer.MotorcycleComputer.{MotorcycleComputer, dispatch}
use motorcycle_computer.MotorcycleComputer.Tests.{seen, computer}
use motorcycle_computer.Node.Tests.{Memory}
use motorcycle_computer.Sketch.Codec.{SketchPacket, blank, library_packet, broadcast, crc16}
use motorcycle_computer.Sketch.Parser.{fresh_parser, push, push_frame, read_packet, feed}
use motorcycle_computer.Sketch.Agree.{library_parser, known_versions, feed-library}
use motorcycle_computer.Sketch.Ports.{new_ports, serial_at, rx_count, tx_count, malformed}
use motorcycle_computer.Sketch.Route.{SketchRouter, fresh_router, port_of, route, diagnostic_packet}
use motorcycle_computer.Sketch.Isolation.{SameLink, route-delivers}
use motorcycle_computer.Sketch.Answers.{IsAnswer, send_all, route-reaches}
use motorcycle_computer.Sketch.Diagnose.{AreWords, dispatch-diagnostic_packet}

-- The command of the library's tests.
abbrev left_on : SketchPacket
left_on = record blank {
  src = 0x01;
  dst = 0x20;
  type = 0x20;
  flags = 1;
  seq = 0x1234;
  len = 2;
  payload = 1 ∷ 1 ∷ replicate 126 0;
}

abbrev unplugged : Port
unplugged = record { rx = []; writes = [] }

abbrev started : SketchRouter Port
started =
    fresh_router
      (record new_ports { serial = some unplugged ∷ some unplugged ∷ some unplugged ∷ [] })

encode-left_on : encode_packet (library_packet left_on) (some 140) ≡ some left_on_frame
unfolding encode_packet encoded_size frame_body write_u16_be crc16_ccitt_false
encode-left_on = refl

-- Noise, and the frame of the library's tests.
abbrev noisy : List ℕ
noisy = 0 ∷ 0xA5 ∷ left_on_frame

noisy-known_versions : known_versions fresh_parser noisy ≡ true
unfolding known_versions push push_frame read_packet crc16
noisy-known_versions = refl

feed-noisy : (feed fresh_parser noisy).0 ≡ left_on ∷ []
unfolding feed push push_frame read_packet crc16
feed-noisy = refl

feed-library_example :
    StreamParser.feed new_parser noisy
    ≡ (map library_packet (feed fresh_parser noisy).0, library_parser (feed fresh_parser noisy).1)
feed-library_example = feed-library noisy noisy-known_versions

-- The command from the main computer's link goes to the lighting controller's.
route-delivers_example :
    let r = route started 0 left_on in
    (serial_at r.ports 1 ≡ some (record { rx = []; writes = left_on_frame ∷ [] }))
    × (r.forwarded ≡ 1)
    × (r.dropped ≡ 0)
route-delivers_example =
    route-delivers started 0 left_on unplugged left_on_frame (omega arith) refl
      (λ e. ground (arith, e)) refl (omega arith) encode-left_on (omega arith)

-- From the security controller's link it reaches nothing.
route-reaches_example :
    (SameLink 1 started (route started 2 left_on)
      ⊎ ((port_of left_on.src ≡ 2)
          × (((◌≡◌ {A = ℕ} 1 2) × ((left_on.dst ≡ 0x10) ⊎ (left_on.dst ≡ broadcast)))
              ⊎ ((◌≢◌ {A = ℕ} 1 2) × ((left_on.dst ≡ broadcast) ⊎ (port_of left_on.dst ≡ 1))))))
    × ((qs : List SketchPacket) × All (IsAnswer left_on) qs
        × (length qs ≤ 2)
        × (get_or (route started 2 left_on).ports.serial 2 none
            ≡ get_or (send_all started.ports 2 qs).serial 2 none))
route-reaches_example = route-reaches started 2 left_on 1

started-AreWords : AreWords started
unfolding rx_count tx_count malformed
started-AreWords = record {
  forwarded_lt = omega arith;
  dropped_lt = omega arith;
  ports_lt = λ i. ground arith;
}

dispatch-diagnostic_packet_example :
    (dispatch seen computer
      (library_packet (diagnostic_packet started left_on))
      900).northbridge_state.forwarded_packets
    ≡ 0
dispatch-diagnostic_packet_example =
    ap (λ (m : MotorcycleComputer Memory (List Packet)). m.northbridge_state.forwarded_packets)
      (dispatch-diagnostic_packet seen computer started left_on 900 started-AreWords)
