-- ===== src/Northbridge/PortLoop.antt =====
-- The loop over the ports of the northbridge's diagnostics, written and read back.
use motorcycle_computer.Base.{
  ℕ, zero, suc, ◌+◌, ◌*◌, ◌≤◌, ◌<◌, ◌≡◌, ◌∙◌, refl, sym, ap, arith, Option, none, some, List, [],
  ◌∷◌, ◌++◌, length, get_or, set, replicate, length-append,
}
use motorcycle_computer.Protocol.Packet.{Packet}
use motorcycle_computer.Protocol.DeviceInfo.Word.{HoldsWord}
use motorcycle_computer.MotorcycleComputer.DecodeNorthbridge.{
  NorthbridgePortSnapshot, empty_port, port_at_offset, decode_ports,
}
use motorcycle_computer.Northbridge.{NorthbridgePortStats, empty_stats}
use motorcycle_computer.Northbridge.Packets.{put_port, put_ports, count_attached}
use motorcycle_computer.Northbridge.PortBytes.{
  IsCounters, known, port_snapshots, read_u32-HoldsWord, length-put_port, get_or-put_ports,
  HoldsWord-put_ports, put_port-HoldsPort,
}

pub put_ports-offset :
    (payload : List ℕ) (offset port : ℕ) (ports : List (Option ℕ))
    (stats : List NorthbridgePortStats)
    → (put_ports payload offset port ports stats).1 ≡ offset + 21 * count_attached ports
unfolding put_ports
put_ports-offset payload offset port [] stats = omega arith
put_ports-offset payload offset port (none ∷ ports) stats =
    put_ports-offset payload offset (port + 1) ports stats
put_ports-offset payload offset port (some transport ∷ ports) stats =
    let e = get_or stats port empty_stats in
    put_ports-offset (put_port payload offset port e) (offset + 21) (port + 1) ports stats
    ∙ omega arith

pub count_attached-le : (ports : List (Option ℕ)) → count_attached ports ≤ length ports
count_attached-le [] = omega arith
count_attached-le (none ∷ ports) = omega (arith, count_attached-le ports)
count_attached-le (some transport ∷ ports) = omega (arith, count_attached-le ports)

-- The element after the first ones, written.
set-append :
    {A : Type 0} (xs ys : List A) (i : ℕ) (x v : A)
    → i ≡ length xs
    → set (xs ++ x ∷ ys) i v ≡ (xs ++ v ∷ []) ++ ys
set-append [] ys zero x v h = refl
set-append [] ys (suc i) x v h = absurd (omega arith)
set-append (a ∷ xs) ys zero x v h = absurd (omega arith)
set-append (a ∷ xs) ys (suc i) x v h = ap (λ zs. a ∷ zs) (set-append xs ys i x v (omega arith))

append_one : {A : Type 0} (xs ys : List A) (x : A) → xs ++ x ∷ ys ≡ (xs ++ x ∷ []) ++ ys
append_one [] ys x = refl
append_one (a ∷ xs) ys x = ap (λ zs. a ∷ zs) (append_one xs ys x)

port_at_offset-HoldsPort :
    (p : Packet) (offset port : ℕ) (stats : NorthbridgePortStats)
    → IsCounters stats
    → HoldsWord p.payload (offset + 1) stats.rx_packets
    → HoldsWord p.payload (offset + 5) stats.tx_packets
    → HoldsWord p.payload (offset + 9) stats.rx_bytes
    → HoldsWord p.payload (offset + 13) stats.dropped_packets
    → HoldsWord p.payload (offset + 17) stats.malformed_frames
    → port_at_offset p offset ≡ known stats
unfolding port_at_offset
port_at_offset-HoldsPort p offset port stats c w1 w2 w3 w4 w5 = ground (
  arith,
  read_u32-HoldsWord p (offset + 1) stats.rx_packets c.rx_packets_lt w1,
  read_u32-HoldsWord p (offset + 5) stats.tx_packets c.tx_packets_lt w2,
  read_u32-HoldsWord p (offset + 9) stats.rx_bytes c.rx_bytes_lt w3,
  read_u32-HoldsWord p (offset + 13) stats.dropped_packets c.dropped_packets_lt w4,
  read_u32-HoldsWord p (offset + 17) stats.malformed_frames c.malformed_frames_lt w5,
)

the_word :
    (bytes other : List ℕ) (i value : ℕ)
    → bytes ≡ other
    → HoldsWord other i value
    → HoldsWord bytes i value
the_word bytes other i value e w = rw e w

-- One turn of the loop that reads the ports.
decode_ports_next :
    (p : Packet) (acc : List NorthbridgePortSnapshot) (count offset port : ℕ)
    (stats : NorthbridgePortSnapshot)
    → port < 8
    → get_or p.payload offset 0 ≡ port
    → port_at_offset p offset ≡ stats
    → decode_ports acc p (suc count) offset
      ≡ decode_ports (set acc port stats) p count (offset + 21)
unfolding decode_ports
decode_ports_next p acc count offset port stats lt number read = rw (number, read) (ground arith)

-- The loop that reads the ports finds what the loop that writes them put there.
pub decode_ports-put_ports :
    (p : Packet) (payload : List ℕ) (offset port : ℕ) (ports : List (Option ℕ))
    (stats : List NorthbridgePortStats) (before : List NorthbridgePortSnapshot)
    → ((k : ℕ) → IsCounters (get_or stats k empty_stats))
    → port ≡ length before
    → port + length ports ≤ 8
    → offset + 21 * count_attached ports ≤ length payload
    → p.payload ≡ (put_ports payload offset port ports stats).0
    → decode_ports (before ++ replicate (length ports) empty_port) p (count_attached ports) offset
      ≡ some (before ++ port_snapshots port ports stats)
unfolding put_ports decode_ports
decode_ports-put_ports p payload offset port [] stats before c at le fits e = refl
decode_ports-put_ports p payload offset port (none ∷ ports) stats before c at le fits e =
    let blank = replicate (length ports) empty_port in
    ap (λ acc. decode_ports acc p (count_attached ports) offset)
      (append_one before blank empty_port)
    ∙ decode_ports-put_ports p payload offset (port + 1) ports stats (before ++ empty_port ∷ []) c
        (omega (arith, length-append before (empty_port ∷ []))) (omega arith) fits e
    ∙ ap some (sym (append_one before (port_snapshots (port + 1) ports stats) empty_port))
decode_ports-put_ports p payload offset port (some transport ∷ ports) stats before c at le fits e =
    let stat = get_or stats port empty_stats in
    let written = put_port payload offset port stat in
    let blank = replicate (length ports) empty_port in
    let here = put_port-HoldsPort payload offset port stat (omega arith) in
    let keep = λ (i value : ℕ) (i_le : i + 4 ≤ offset + 21) (w : HoldsWord written i value).
      the_word p.payload (put_ports payload offset port (some transport ∷ ports) stats).0 i value e
        (HoldsWord-put_ports written (offset + 21) (port + 1) ports stats i value i_le w) in
    let read =
      port_at_offset-HoldsPort p offset port stat (c port)
        (keep (offset + 1) stat.rx_packets (omega arith) here.rx_packets_word)
        (keep (offset + 5) stat.tx_packets (omega arith) here.tx_packets_word)
        (keep (offset + 9) stat.rx_bytes (omega arith) here.rx_bytes_word)
        (keep (offset + 13) stat.dropped_packets (omega arith) here.dropped_packets_word)
        (keep (offset + 17) stat.malformed_frames (omega arith) here.malformed_frames_word) in
    let number =
      ap (λ bytes. get_or bytes offset 0) e
      ∙ get_or-put_ports written (offset + 21) (port + 1) ports stats offset (omega arith)
      ∙ here.port_byte in
    let rest =
      decode_ports-put_ports p written (offset + 21) (port + 1) ports stats
        (before ++ known stat ∷ []) c (omega (arith, length-append before (known stat ∷ [])))
        (omega arith) (omega (arith, length-put_port payload offset port stat)) e in
    decode_ports_next p (before ++ empty_port ∷ blank) (count_attached ports) offset port
      (known stat) (omega arith) number read
    ∙ ap (λ acc. decode_ports acc p (count_attached ports) (offset + 21))
        (set-append before blank port empty_port (known stat) at)
    ∙ rest
    ∙ ap some (sym (append_one before (port_snapshots (port + 1) ports stats) (known stat)))
