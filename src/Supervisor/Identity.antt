-- ===== src/Supervisor/Identity.antt =====
-- What a device says of itself is what the supervisor writes down.
use motorcycle_computer.Base.{
  ℕ, ◌+◌, ◌/◌, ◌%◌, ◌<◌, ◌≡◌, refl, arith, true, ◌&&◌, List, get_or, u8, u32, ltb, if◌then◌else◌,
}
use motorcycle_computer.Base.Bits.{bit_or_word, bit_or_byte}
use motorcycle_computer.Protocol.Packet.{Packet, empty_packet}
use motorcycle_computer.Protocol.Packet.MessageType
use motorcycle_computer.Protocol.DeviceInfo.{
  DeviceIdentity, put_device_u32, put_identity, encode_device_info_payload,
}
use motorcycle_computer.Supervisor.{
  NodeStatus, online, degraded, get_u32, identify, observe_entry, update_health,
}

get_u32-word :
    (bytes : List ℕ) (i value : ℕ)
    → value < 4294967296
    → get_or bytes i 0 ≡ u8 (value / 16777216)
    → get_or bytes (i + 1) 0 ≡ u8 (value / 65536)
    → get_or bytes (i + 2) 0 ≡ u8 (value / 256)
    → get_or bytes (i + 3) 0 ≡ u8 value
    → get_u32 bytes i ≡ value
unfolding get_u32
get_u32-word bytes i value h h0 h1 h2 h3 =
    let word =
      bit_or_word (u8 (value / 16777216)) (u8 (value / 65536)) (u8 (value / 256)) (u8 value)
        (omega arith) (omega arith) (omega arith) in
    ground (arith, word, h0, h1, h2, h3)

-- The packet that a device sends, from `Packet{}` on, before the node stamps it.
abbrev pub info_packet : ℕ → ℕ → ℕ → ℕ → DeviceIdentity → ℕ → Packet
info_packet source destination sequence address identity uptime_ms =
    encode_device_info_payload
      (record empty_packet {
        source = source;
        destination = destination;
        type = MessageType.device_info;
        sequence = sequence;
      })
      address identity uptime_ms

info_packet-uptime :
    (source destination sequence address : ℕ) (identity : DeviceIdentity) (uptime_ms : ℕ)
    → uptime_ms < 4294967296
    → get_u32 (info_packet source destination sequence address identity uptime_ms).payload 10
      ≡ uptime_ms
unfolding encode_device_info_payload put_identity put_device_u32
info_packet-uptime source destination sequence address identity uptime_ms h =
    get_u32-word _ 10 uptime_ms h refl refl refl refl

-- The supervisor's entry of a node whose device information arrives: the identity is the one that
-- was encoded, the capabilities but for their high half, the node is online and compatible, and a
-- smaller uptime than before counts as a reboot.
pub observe_entry-info_packet :
    (e : NodeStatus) (source destination sequence address : ℕ) (identity : DeviceIdentity)
    (uptime_ms now_ms : ℕ)
    → uptime_ms < 4294967296
    → observe_entry e (info_packet source destination sequence address identity uptime_ms) now_ms
      ≡ record e {
        address = address;
        is_online = true;
        health = if ltb 0 e.fault_count then degraded else online;
        last_seen_ms = now_ms;
        reboot_count =
            if e.identity_valid && ltb uptime_ms e.uptime_ms
            then u32 (e.reboot_count + 1)
            else e.reboot_count;
        identity_valid = true;
        identity_schema = 1;
        device_class = identity.device_class;
        node_version = 1;
        firmware_major = identity.firmware_major;
        firmware_minor = identity.firmware_minor;
        firmware_patch = identity.firmware_patch;
        hardware_revision = identity.hardware_revision;
        reset_reason = identity.reset_reason;
        uptime_ms = uptime_ms;
        capabilities = identity.capabilities % 65536;
        protocol_compatible = true;
      }
unfolding observe_entry identify update_health encode_device_info_payload put_identity
    put_device_u32
observe_entry-info_packet e source destination sequence address identity uptime_ms now_ms h =
    ground (
      arith,
      info_packet-uptime source destination sequence address identity uptime_ms h,
      bit_or_byte (u8 (identity.capabilities / 256)) (u8 identity.capabilities) (omega arith),
    )
