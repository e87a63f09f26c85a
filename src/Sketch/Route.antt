-- ===== src/Sketch/Route.antt =====
-- esp32s3C/Router.h and esp32s3C/Router.cpp: the class `Router`, and the calls of esp32s3C.ino.
use motorcycle_computer.Base.{
  ℕ, zero, suc, ◌+◌, ◌*◌, ◌/◌, ◌||◌, List, set, bit_and, u8, u16, u32, ◌==◌, ◌!=◌, if◌then◌else◌,
}
use motorcycle_computer.Arduino.{HardwareSerial}
use motorcycle_computer.Sketch.Codec.{
  SketchPacket, blank, main, north, light, security, broadcast, heartbeat, ack, get_state,
  discovery, diagnostic,
}
use motorcycle_computer.Sketch.Ports.{
  Ports, new_ports, port_count, rx_count, tx_count, malformed, begin, send, receive,
}

pub record SketchRouter (P : Type 0) : Type 0 where
  pub ports : Ports P
  pub forwarded : ℕ
  pub dropped : ℕ
  pub sequence : ℕ

abbrev pub fresh_router : {P : Type 0} → Ports P → SketchRouter P
fresh_router ports = record { ports = ports; forwarded = 0; dropped = 0; sequence = 1 }

-- The port of a node, by its address; 255 for any other.
abbrev pub port_of : ℕ → ℕ
port_of address =
    if address == main
    then 0
    else if address == light
    then 1
    else if address == security
    then 2
    else 255

-- The lambda `put32`.
abbrev pub put32 : List ℕ → ℕ → ℕ → List ℕ
put32 payload at v =
    set
      (set (set (set payload at (u8 (v / 16777216))) (at + 1) (u8 (v / 65536))) (at + 2)
        (u8 (v / 256)))
      (at + 3) (u8 v)

module _ {P : Type 0} where
  -- One turn of the loop over the ports in `local`.
  unfoldable pub put_record : List ℕ → Ports P → ℕ → List ℕ
  put_record payload ports i =
      let at = 18 + i * 21 in
      let numbered = set payload at i in
      let received = put32 numbered (at + 1) (rx_count ports i) in
      let sent = put32 received (at + 5) (tx_count ports i) in
      put32 (put32 (put32 sent (at + 9) 0) (at + 13) 0) (at + 17) (malformed ports i)

  -- The packet with the diagnostics.
  unfoldable pub diagnostic_packet : SketchRouter P → SketchPacket → SketchPacket
  unfolding put_record
  diagnostic_packet r p =
      let start = set (set blank.payload 0 0x02) 1 port_count in
      let counted = put32 (put32 start 2 r.forwarded) 6 r.dropped in
      let none_moved = put32 (put32 counted 10 0) 14 0 in
      let first = put_record none_moved r.ports 0 in
      let second = put_record first r.ports 1 in
      record {
        src = north;
        dst = p.src;
        type = diagnostic;
        flags = 0x02;
        seq = r.sequence;
        len = 18 + port_count * 21;
        payload = put_record second r.ports 2;
      }

  -- `++dropped_` and `++forwarded_`.
  abbrev pub count_dropped : SketchRouter P → SketchRouter P
  count_dropped r = record r { dropped = u32 (r.dropped + 1) }

  abbrev pub count_forwarded : SketchRouter P → SketchRouter P
  count_forwarded r = record r { forwarded = u32 (r.forwarded + 1) }

  -- `sequence_++`.
  abbrev pub next_sequence : SketchRouter P → SketchRouter P
  next_sequence r = record r { sequence = u16 (r.sequence + 1) }

module _ {P : Type 0} ⦃hs : HardwareSerial P⦄ where
  -- `if(!ports_.send(port,p))++dropped_;`
  unfoldable pub send_or_drop : SketchRouter P → ℕ → SketchPacket → SketchRouter P
  send_or_drop r port p =
      let (sent, ports) = send r.ports port p in
      let r' = record r { ports = ports } in if sent then r' else count_dropped r'

  -- `if(ports_.send(port,p))++forwarded_;else ++dropped_;`
  unfoldable pub send_or_count : SketchRouter P → ℕ → SketchPacket → SketchRouter P
  send_or_count r port p =
      let (sent, ports) = send r.ports port p in
      let r' = record r { ports = ports } in if sent then count_forwarded r' else count_dropped r'

  unfoldable pub reply : SketchRouter P → ℕ → ℕ → ℕ → ℕ → SketchRouter P
  reply r port dst type seq =
      let p : SketchPacket = record blank { src = north; dst = dst; type = type; flags = 0x02 } in
      if seq != 0
      then send_or_drop r port (record p { seq = seq })
      else send_or_drop (next_sequence r) port (record p { seq = r.sequence })

  -- `local` after the acknowledgement. For a discovery the code fills a packet, and sends nothing.
  unfoldable pub answer : SketchRouter P → ℕ → SketchPacket → SketchRouter P
  answer r ingress p =
      if p.type == heartbeat
      then reply r ingress p.src heartbeat 0
      else if p.type == discovery
      then next_sequence r
      else if p.type == diagnostic || p.type == get_state
      then send_or_drop (next_sequence r) ingress (diagnostic_packet r p)
      else r

  unfoldable pub local : SketchRouter P → ℕ → SketchPacket → SketchRouter P
  local r ingress p =
      answer (if bit_and p.flags 0x01 != 0 then reply r ingress p.src ack p.seq else r) ingress p

  -- The loop of `route` for a broadcast, over the `count` ports from `i` on.
  unfoldable pub broadcast_from : SketchRouter P → ℕ → SketchPacket → ℕ → ℕ → SketchRouter P
  broadcast_from r ingress p i zero = r
  broadcast_from r ingress p i (suc count) =
      broadcast_from (if i == ingress then r else send_or_count r i p) ingress p (i + 1) count

  unfoldable pub route : SketchRouter P → ℕ → SketchPacket → SketchRouter P
  unfolding broadcast_from
  route r ingress p =
      let target = port_of p.dst in
      if p.src == north || p.src == broadcast
      then count_dropped r
      else if port_of p.src != ingress
      then count_dropped r
      else if p.dst == north
      then local r ingress p
      else if p.dst == broadcast
      then broadcast_from (local r ingress p) ingress p 0 port_count
      else if target == 255 || target == ingress
      then count_dropped r
      else send_or_count r target p

  -- The inner loop of `service`, with the budget left.
  unfoldable pub service_port : ℕ → SketchRouter P → ℕ → SketchPacket → SketchRouter P
  service_port zero r port p = r
  service_port (suc budget) r port p =
      let (got, ports, q) = receive r.ports port p in
      let r' = record r { ports = ports } in
      let rest = service_port budget (route r' port q) port q in if got then rest else r'

  -- The loop over the ports.
  unfoldable pub service : SketchRouter P → SketchRouter P
  unfolding service_port
  service r = service_port 8 (service_port 8 (service_port 8 r 0 blank) 1 blank) 2 blank

  -- `setup`, with the three links as the board finds them, and `loop`; the output on the console
  -- is left out.
  unfoldable pub setup : P → P → P → SketchRouter P
  setup main_uart light_uart security_uart =
      fresh_router (begin new_ports main_uart light_uart security_uart)

  unfoldable pub loop : SketchRouter P → SketchRouter P
  loop r = service r
