-- ===== src/Supervisor.antt =====
-- library/include/bike/supervisor.hpp and library/src/supervisor.cpp: the table of nodes that the
-- supervisor keeps, and what it learns from a packet. `find_or_create` gives the place of an entry
-- where the code gives a pointer to it.
pub mod Identity
pub mod Service
mod Tests
use motorcycle_computer.Base.{
  ℕ, ◌+◌, ◌*◌, zero, suc, Bool, true, false, not, ◌&&◌, Option, none, some, List, [], ◌∷◌, get_or,
  set, ltb, leb, u16, u32, ◌==◌, if◌then◌else◌, bit_or,
}
use motorcycle_computer.Protocol.Packet.{Packet, protocol_version}
use motorcycle_computer.Protocol.Packet.NodeAddress
use motorcycle_computer.Protocol.Packet.MessageType
use motorcycle_computer.Protocol.DeviceInfo.{
  main_computer_class, reset_reason_unknown, device_info_payload_size, device_info_schema_version,
}

pub data NodeHealth : Type 0 where
  unknown online degraded offline incompatible : NodeHealth

pub record NodeStatus : Type 0 where
  pub address : ℕ
  pub discovered : Bool
  pub is_online : Bool
  pub health : NodeHealth
  pub required : Bool
  pub last_seen_ms : ℕ
  pub last_heartbeat_ms : ℕ
  pub fault_count : ℕ
  pub reboot_count : ℕ
  pub identity_valid : Bool
  pub identity_schema : ℕ
  pub device_class : ℕ
  pub node_version : ℕ
  pub firmware_major : ℕ
  pub firmware_minor : ℕ
  pub firmware_patch : ℕ
  pub hardware_revision : ℕ
  pub reset_reason : ℕ
  pub uptime_ms : ℕ
  pub capabilities : ℕ
  pub protocol_compatible : Bool

-- `NodeStatus{}`.
abbrev pub new_status : NodeStatus
new_status = record {
  address = NodeAddress.broadcast;
  discovered = false;
  is_online = false;
  health = unknown;
  required = false;
  last_seen_ms = 0;
  last_heartbeat_ms = 0;
  fault_count = 0;
  reboot_count = 0;
  identity_valid = false;
  identity_schema = 0;
  device_class = main_computer_class;
  node_version = 0;
  firmware_major = 0;
  firmware_minor = 0;
  firmware_patch = 0;
  hardware_revision = 0;
  reset_reason = reset_reason_unknown;
  uptime_ms = 0;
  capabilities = 0;
  protocol_compatible = false;
}

unfoldable pub get_u32 : List ℕ → ℕ → ℕ
get_u32 bytes i =
    bit_or
      (bit_or (bit_or (get_or bytes i 0 * 16777216) (get_or bytes (i + 1) 0 * 65536))
        (get_or bytes (i + 2) 0 * 256))
      (get_or bytes (i + 3) 0)

-- The place of the first entry of a discovered node with the address.
abbrev pub find_known : List NodeStatus → ℕ → Option ℕ
find_known [] address = none
find_known (e ∷ es) address =
    let rest = find_known es address in
    if e.discovered && e.address == address
    then some 0
    else elim rest [ none ↦ none | some i ↦ some (suc i) ]

-- The place of the first entry without a node.
abbrev pub find_free : List NodeStatus → Option ℕ
find_free [] = none
find_free (e ∷ es) =
    let rest = find_free es in
    if not e.discovered then some 0 else elim rest [ none ↦ none | some i ↦ some (suc i) ]

unfoldable pub find_or_create : List NodeStatus → ℕ → Option (ℕ × List NodeStatus)
find_or_create nodes address = elim (find_known nodes address) [
  | some i ↦ some (i, nodes)
  | none ↦ elim (find_free nodes) [
    | none ↦ none
    | some i ↦ some (
      i,
      set nodes i (record (get_or nodes i new_status) { address = address; discovered = true }),
    )
  ]
]

unfoldable pub update_health : NodeStatus → NodeStatus
update_health e =
    if not e.is_online
    then record e { health = if e.discovered then offline else unknown }
    else if e.identity_valid && not e.protocol_compatible
    then record e { health = incompatible }
    else if ltb 0 e.fault_count
    then record e { health = degraded }
    else record e { health = online }

-- What a device information packet leaves in the entry.
unfoldable pub identify : NodeStatus → List ℕ → NodeStatus
identify e payload =
    let new_uptime = get_u32 payload 10 in
    record e {
      reboot_count =
          if e.identity_valid && ltb new_uptime e.uptime_ms
          then u32 (e.reboot_count + 1)
          else e.reboot_count;
      identity_schema = get_or payload 0 0;
      address = get_or payload 1 0;
      device_class = get_or payload 2 0;
      node_version = get_or payload 3 0;
      firmware_major = get_or payload 4 0;
      firmware_minor = get_or payload 5 0;
      firmware_patch = get_or payload 6 0;
      hardware_revision = get_or payload 7 0;
      reset_reason = get_or payload 8 0;
      uptime_ms = new_uptime;
      capabilities = u16 (bit_or (get_or payload 14 0 * 256) (get_or payload 15 0));
      protocol_compatible = get_or payload 3 0 == protocol_version;
      identity_valid = true;
    }

-- `observe`, for the entry that `find_or_create` gave.
unfoldable pub observe_entry : NodeStatus → Packet → ℕ → NodeStatus
observe_entry e p now_ms =
    let seen = record e { is_online = true; last_seen_ms = now_ms } in
    update_health (
      if p.type == MessageType.device_info
        && (leb device_info_payload_size p.length
            && get_or p.payload 0 0 == device_info_schema_version)
      then identify seen p.payload
      else if p.type == MessageType.heartbeat
      then record seen { last_heartbeat_ms = now_ms }
      else if p.type == MessageType.fault
      then record seen { fault_count = u32 (seen.fault_count + 1) }
      else seen)

unfoldable pub observe : List NodeStatus → Packet → ℕ → List NodeStatus
observe nodes p now_ms = elim (find_or_create nodes p.source) [
  | none ↦ nodes
  | some (i, made) ↦ set made i (observe_entry (get_or made i new_status) p now_ms)
]

-- Null where the code gives no entry.
unfoldable pub status : List NodeStatus → ℕ → Option NodeStatus
status nodes address = elim (find_known nodes address) [
  | none ↦ none
  | some i ↦ some (get_or nodes i new_status)
]

abbrev pub known_node_count : List NodeStatus → ℕ
known_node_count [] = 0
known_node_count (e ∷ es) = (if e.discovered then 1 else 0) + known_node_count es
