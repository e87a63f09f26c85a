-- ===== src/Northbridge/PortBytes.antt =====
-- The bytes of a port in the diagnostics of the northbridge.
use motorcycle_computer.Base.{
  ℕ, ◌+◌, ◌/◌, ◌≤◌, ◌<◌, ◌≡◌, ◌∙◌, refl, arith, true, Option, none, some, List, [], ◌∷◌, length,
  get_or, set, length-set, get_or-set_self, get_or-set_ne, u8,
}
use motorcycle_computer.Base.Bits.{bit_or_word}
use motorcycle_computer.Protocol.Packet.{Packet}
use motorcycle_computer.Protocol.DeviceInfo.{put_device_u32}
use motorcycle_computer.Protocol.DeviceInfo.Word.{
  HoldsWord, length-put_device_u32, get_or-put_device_u32, HoldsWord-put_device_u32,
  put_device_u32-HoldsWord,
}
use motorcycle_computer.MotorcycleComputer.DecodeLighting.{read_u32}
use motorcycle_computer.MotorcycleComputer.DecodeNorthbridge.{NorthbridgePortSnapshot, empty_port}
use motorcycle_computer.Northbridge.{NorthbridgePortStats, empty_stats}
use motorcycle_computer.Northbridge.Packets.{put_port, put_ports}

-- Each counter fits its four bytes.
pub record IsCounters (stats : NorthbridgePortStats) : Type 0 where
  pub rx_packets_lt : stats.rx_packets < 4294967296
  pub tx_packets_lt : stats.tx_packets < 4294967296
  pub rx_bytes_lt : stats.rx_bytes < 4294967296
  pub dropped_packets_lt : stats.dropped_packets < 4294967296
  pub malformed_frames_lt : stats.malformed_frames < 4294967296

-- What there is to know of an attached port.
abbrev pub known : NorthbridgePortStats → NorthbridgePortSnapshot
known stats = record {
  attached = true;
  rx_packets = stats.rx_packets;
  tx_packets = stats.tx_packets;
  rx_bytes = stats.rx_bytes;
  dropped_packets = stats.dropped_packets;
  malformed_frames = stats.malformed_frames;
}

-- What there is to know of the ports, from a number on.
abbrev pub port_snapshots :
    ℕ → List (Option ℕ) → List NorthbridgePortStats → List NorthbridgePortSnapshot
port_snapshots port [] stats = []
port_snapshots port (none ∷ ports) stats = empty_port ∷ port_snapshots (port + 1) ports stats
port_snapshots port (some transport ∷ ports) stats =
    known (get_or stats port empty_stats) ∷ port_snapshots (port + 1) ports stats

pub read_u32-HoldsWord :
    (p : Packet) (i value : ℕ)
    → value < 4294967296
    → HoldsWord p.payload i value
    → read_u32 p i ≡ value
unfolding read_u32
read_u32-HoldsWord p i value h w = ground (
  arith,
  w.byte0,
  w.byte1,
  w.byte2,
  w.byte3,
  bit_or_word (u8 (value / 16777216)) (u8 (value / 65536)) (u8 (value / 256)) (u8 value)
      (omega arith) (omega arith) (omega arith),
)

pub length-put_port :
    (payload : List ℕ) (offset port : ℕ) (stats : NorthbridgePortStats)
    → length (put_port payload offset port stats) ≡ length payload
unfolding put_port
length-put_port payload offset port stats =
    let p₀ = set payload offset port in
    let p₁ = put_device_u32 p₀ (offset + 1) stats.rx_packets in
    let p₂ = put_device_u32 p₁ (offset + 5) stats.tx_packets in
    let p₃ = put_device_u32 p₂ (offset + 9) stats.rx_bytes in
    let p₄ = put_device_u32 p₃ (offset + 13) stats.dropped_packets in
    length-put_device_u32 p₄ (offset + 17) stats.malformed_frames
    ∙ length-put_device_u32 p₃ (offset + 13) stats.dropped_packets
    ∙ length-put_device_u32 p₂ (offset + 9) stats.rx_bytes
    ∙ length-put_device_u32 p₁ (offset + 5) stats.tx_packets
    ∙ length-put_device_u32 p₀ (offset + 1) stats.rx_packets
    ∙ length-set payload offset port

-- A byte up to the port's number, after the words of the port.
get_or-words :
    (payload : List ℕ) (offset port k : ℕ) (stats : NorthbridgePortStats)
    → k ≤ offset
    → get_or (put_port payload offset port stats) k 0 ≡ get_or (set payload offset port) k 0
unfolding put_port
get_or-words payload offset port k stats h =
    let p₀ = set payload offset port in
    let p₁ = put_device_u32 p₀ (offset + 1) stats.rx_packets in
    let p₂ = put_device_u32 p₁ (offset + 5) stats.tx_packets in
    let p₃ = put_device_u32 p₂ (offset + 9) stats.rx_bytes in
    let p₄ = put_device_u32 p₃ (offset + 13) stats.dropped_packets in
    get_or-put_device_u32 p₄ (offset + 17) stats.malformed_frames k (omega arith)
    ∙ get_or-put_device_u32 p₃ (offset + 13) stats.dropped_packets k (omega arith)
    ∙ get_or-put_device_u32 p₂ (offset + 9) stats.rx_bytes k (omega arith)
    ∙ get_or-put_device_u32 p₁ (offset + 5) stats.tx_packets k (omega arith)
    ∙ get_or-put_device_u32 p₀ (offset + 1) stats.rx_packets k (omega arith)

pub get_or-put_port :
    (payload : List ℕ) (offset port k : ℕ) (stats : NorthbridgePortStats)
    → k < offset
    → get_or (put_port payload offset port stats) k 0 ≡ get_or payload k 0
get_or-put_port payload offset port k stats h =
    get_or-words payload offset port k stats (omega arith)
    ∙ get_or-set_ne payload port 0 (λ e. omega arith)

-- The loop leaves what is before its offset.
pub get_or-put_ports :
    (payload : List ℕ) (offset port : ℕ) (ports : List (Option ℕ))
    (stats : List NorthbridgePortStats) (k : ℕ)
    → k < offset
    → get_or (put_ports payload offset port ports stats).0 k 0 ≡ get_or payload k 0
unfolding put_ports
get_or-put_ports payload offset port [] stats k h = refl
get_or-put_ports payload offset port (none ∷ ports) stats k h =
    get_or-put_ports payload offset (port + 1) ports stats k h
get_or-put_ports payload offset port (some transport ∷ ports) stats k h =
    let e = get_or stats port empty_stats in
    get_or-put_ports (put_port payload offset port e) (offset + 21) (port + 1) ports stats k
      (omega arith)
    ∙ get_or-put_port payload offset port k e h

pub HoldsWord-put_ports :
    (payload : List ℕ) (offset port : ℕ) (ports : List (Option ℕ))
    (stats : List NorthbridgePortStats) (i value : ℕ)
    → i + 4 ≤ offset
    → HoldsWord payload i value
    → HoldsWord (put_ports payload offset port ports stats).0 i value
HoldsWord-put_ports payload offset port ports stats i value h w =
    let same =
      λ (k : ℕ) (k_lt : k < offset). get_or-put_ports payload offset port ports stats k k_lt in
    record {
      byte0 = same i (omega arith) ∙ w.byte0;
      byte1 = same (i + 1) (omega arith) ∙ w.byte1;
      byte2 = same (i + 2) (omega arith) ∙ w.byte2;
      byte3 = same (i + 3) (omega arith) ∙ w.byte3;
    }

-- The 21 bytes of a port.
pub record HoldsPort (bytes : List ℕ) (offset port : ℕ) (stats : NorthbridgePortStats)
    : Type 0 where
  pub port_byte : get_or bytes offset 0 ≡ port
  pub rx_packets_word : HoldsWord bytes (offset + 1) stats.rx_packets
  pub tx_packets_word : HoldsWord bytes (offset + 5) stats.tx_packets
  pub rx_bytes_word : HoldsWord bytes (offset + 9) stats.rx_bytes
  pub dropped_packets_word : HoldsWord bytes (offset + 13) stats.dropped_packets
  pub malformed_frames_word : HoldsWord bytes (offset + 17) stats.malformed_frames

pub put_port-HoldsPort :
    (payload : List ℕ) (offset port : ℕ) (stats : NorthbridgePortStats)
    → offset + 21 ≤ length payload
    → HoldsPort (put_port payload offset port stats) offset port stats
unfolding put_port
put_port-HoldsPort payload offset port stats h =
    let p₀ = set payload offset port in
    let p₁ = put_device_u32 p₀ (offset + 1) stats.rx_packets in
    let p₂ = put_device_u32 p₁ (offset + 5) stats.tx_packets in
    let p₃ = put_device_u32 p₂ (offset + 9) stats.rx_bytes in
    let p₄ = put_device_u32 p₃ (offset + 13) stats.dropped_packets in
    let l₀ = length-set payload offset port in
    let l₁ = length-put_device_u32 p₀ (offset + 1) stats.rx_packets in
    let l₂ = length-put_device_u32 p₁ (offset + 5) stats.tx_packets in
    let l₃ = length-put_device_u32 p₂ (offset + 9) stats.rx_bytes in
    let l₄ = length-put_device_u32 p₃ (offset + 13) stats.dropped_packets in
    let keep = λ (i value : ℕ) (i_le : i + 4 ≤ offset + 17) (w : HoldsWord p₄ i value).
      HoldsWord-put_device_u32 p₄ i value (offset + 17) stats.malformed_frames i_le w in
    let keep₄ = λ (i value : ℕ) (i_le : i + 4 ≤ offset + 13) (w : HoldsWord p₃ i value).
      keep i value (omega arith)
        (HoldsWord-put_device_u32 p₃ i value (offset + 13) stats.dropped_packets i_le w) in
    let keep₃ = λ (i value : ℕ) (i_le : i + 4 ≤ offset + 9) (w : HoldsWord p₂ i value).
      keep₄ i value (omega arith)
        (HoldsWord-put_device_u32 p₂ i value (offset + 9) stats.rx_bytes i_le w) in
    record {
      port_byte =
          get_or-words payload offset port offset stats (omega arith)
          ∙ get_or-set_self payload offset port 0 (omega arith);
      rx_packets_word = keep₃ (offset + 1) stats.rx_packets (omega arith) (
          HoldsWord-put_device_u32 p₁ (offset + 1) stats.rx_packets (offset + 5) stats.tx_packets
            (omega arith)
            (put_device_u32-HoldsWord p₀ (offset + 1) stats.rx_packets (omega arith)));
      tx_packets_word =
          keep₃ (offset + 5) stats.tx_packets (omega arith)
            (put_device_u32-HoldsWord p₁ (offset + 5) stats.tx_packets (omega arith));
      rx_bytes_word =
          keep₄ (offset + 9) stats.rx_bytes (omega arith)
            (put_device_u32-HoldsWord p₂ (offset + 9) stats.rx_bytes (omega arith));
      dropped_packets_word =
          keep (offset + 13) stats.dropped_packets (omega arith)
            (put_device_u32-HoldsWord p₃ (offset + 13) stats.dropped_packets (omega arith));
      malformed_frames_word =
          put_device_u32-HoldsWord p₄ (offset + 17) stats.malformed_frames (omega arith);
    }
