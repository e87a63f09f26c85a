-- ===== src/Supervisor/Tests.antt =====
-- The supervisor's table at a concrete node, after tests/supervisor_lighting_test.cpp.
use motorcycle_computer.Base.{◌≡◌, refl, ap, arith, true, [], ◌∷◌}
use motorcycle_computer.Protocol.Packet.NodeAddress
use motorcycle_computer.Protocol.DeviceInfo.{
  DeviceIdentity, default_identity, put_device_u32, put_identity, encode_device_info_payload,
}
use motorcycle_computer.Supervisor.{
  NodeStatus, new_status, get_u32, find_or_create, observe, observe_entry, identify, update_health,
  known_node_count,
}
use motorcycle_computer.Supervisor.Service.{NetworkSupervisor, empty_supervisor, service}
use motorcycle_computer.Supervisor.Service.Online.{service-checked}
use motorcycle_computer.Node.Tests.{memory, main_node}
use motorcycle_computer.Supervisor.Identity.{info_packet, observe_entry-info_packet}

abbrev lighting_identity : DeviceIdentity
lighting_identity = record default_identity { device_class = 0x10; capabilities = 6 }

-- An unknown node that says what it is has an entry afterwards.
observe-lighting :
    let nodes =
      observe
        (new_status ∷ new_status ∷ [])
        (info_packet NodeAddress.lighting 1 7 NodeAddress.lighting lighting_identity 70000)
        90 in
    known_node_count nodes ≡ 1
unfolding find_or_create observe observe_entry identify update_health put_device_u32 put_identity
    encode_device_info_payload get_u32
observe-lighting = refl

-- A node that had run for longer has restarted.
observe_entry-info_packet_example :
    (observe_entry
      (record new_status { identity_valid = true; uptime_ms = 80000 })
      (info_packet NodeAddress.lighting 1 7 NodeAddress.lighting lighting_identity 70000)
      90).reboot_count
    ≡ 1
observe_entry-info_packet_example =
    ap (λ (e : NodeStatus). e.reboot_count)
      (observe_entry-info_packet (record new_status { identity_valid = true; uptime_ms = 80000 })
        NodeAddress.lighting 1 7 NodeAddress.lighting lighting_identity 70000 90 (omega arith))

-- The lighting node was heard last at 1000; the others were never.
abbrev silent : NetworkSupervisor
silent = record empty_supervisor {
  nodes =
      record new_status {
        address = NodeAddress.lighting;
        discovered = true;
        required = true;
        is_online = true;
        last_seen_ms = 1000;
      }
      ∷ [];
}

service-checked_example : (service silent main_node 4000).0.required_node_fault ≡ true
service-checked_example = (service-checked silent main_node 4000).1
