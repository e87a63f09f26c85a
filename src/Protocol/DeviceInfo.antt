-- ===== src/Protocol/DeviceInfo.antt =====
-- protocol/include/bike_protocol/device_info.hpp: what a device says of itself.
--
-- The enumerations over `std::uint8_t` are bytes, as those of the packet are.
pub mod Word
use motorcycle_computer.Base.{ℕ, ◌+◌, ◌/◌, List, set, u8}
use motorcycle_computer.Protocol.Packet.{Packet, protocol_version}

-- The classes and the capabilities that the controllers have.
abbrev pub security_controller_class : ℕ
security_controller_class = 0x11

abbrev pub network_controller_class : ℕ
network_controller_class = 0x03

abbrev pub lighting_controller_class : ℕ
lighting_controller_class = 0x10

abbrev pub main_computer_class : ℕ
main_computer_class = 0x01

abbrev pub capability_routing : ℕ
capability_routing = 1

abbrev pub capability_lighting : ℕ
capability_lighting = 4

abbrev pub capability_diagnostics : ℕ
capability_diagnostics = 2

abbrev pub capability_security : ℕ
capability_security = 8

abbrev pub capability_persistent_state : ℕ
capability_persistent_state = 16

abbrev pub capability_alarm : ℕ
capability_alarm = 32

abbrev pub capability_start_inhibit : ℕ
capability_start_inhibit = 64

abbrev pub reset_reason_unknown : ℕ
reset_reason_unknown = 0

pub record DeviceIdentity : Type 0 where
  pub device_class : ℕ
  pub firmware_major : ℕ
  pub firmware_minor : ℕ
  pub firmware_patch : ℕ
  pub hardware_revision : ℕ
  pub reset_reason : ℕ
  pub capabilities : ℕ

-- `DeviceIdentity{}`.
abbrev pub default_identity : DeviceIdentity
default_identity = record {
  device_class = main_computer_class;
  firmware_major = 0;
  firmware_minor = 1;
  firmware_patch = 0;
  hardware_revision = 1;
  reset_reason = reset_reason_unknown;
  capabilities = 0;
}

abbrev pub device_info_schema_version : ℕ
device_info_schema_version = 1

abbrev pub device_info_payload_size : ℕ
device_info_payload_size = 16

unfoldable pub put_device_u32 : List ℕ → ℕ → ℕ → List ℕ
put_device_u32 payload offset value =
    let p₁ = set payload offset (u8 (value / 16777216)) in
    let p₂ = set p₁ (offset + 1) (u8 (value / 65536)) in
    let p₃ = set p₂ (offset + 2) (u8 (value / 256)) in set p₃ (offset + 3) (u8 value)

-- The first ten bytes,
unfoldable pub put_identity : List ℕ → ℕ → DeviceIdentity → List ℕ
put_identity payload address identity =
    let p₀ = set payload 0 device_info_schema_version in
    let p₁ = set p₀ 1 address in
    let p₂ = set p₁ 2 identity.device_class in
    let p₃ = set p₂ 3 protocol_version in
    let p₄ = set p₃ 4 identity.firmware_major in
    let p₅ = set p₄ 5 identity.firmware_minor in
    let p₆ = set p₅ 6 identity.firmware_patch in
    let p₇ = set p₆ 7 identity.hardware_revision in
    let p₈ = set p₇ 8 identity.reset_reason in set p₈ 9 0

-- and all of them. Of the capabilities the low sixteen bits are sent.
unfoldable pub encode_device_info_payload : Packet → ℕ → DeviceIdentity → ℕ → Packet
encode_device_info_payload p address identity uptime_ms =
    let timed = put_device_u32 (put_identity p.payload address identity) 10 uptime_ms in
    record p {
      length = device_info_payload_size;
      payload = set (set timed 14 (u8 (identity.capabilities / 256))) 15 (u8 identity.capabilities);
    }
