-- ===== src/Supervisor/Service.antt =====
-- library/src/supervisor.cpp: the object around the table of nodes, its messages and its clockwork.
--
-- The node that the supervisor refers to is passed in and returned.
pub mod Online
use motorcycle_computer.Base.{
  ℕ, Bool, true, false, not, ◌&&◌, ◌||◌, Option, none, some, List, [], ◌∷◌, replicate, get_or, set,
  leb, elapsed, if◌then◌else◌,
}
use motorcycle_computer.Protocol.Packet.{Packet, empty_packet}
use motorcycle_computer.Protocol.Packet.NodeAddress
use motorcycle_computer.Protocol.Packet.MessageType
use motorcycle_computer.Transport.{Transport}
use motorcycle_computer.Node.{BikeNode, send}
use motorcycle_computer.Supervisor.{
  NodeStatus, NodeHealth, incompatible, new_status, find_or_create, update_health, observe,
}

pub record NetworkSupervisor : Type 0 where
  pub nodes : List NodeStatus
  pub heartbeat_interval_ms : ℕ
  pub offline_timeout_ms : ℕ
  pub rediscovery_interval_ms : ℕ
  pub last_heartbeat_tx_ms : ℕ
  pub last_discovery_tx_ms : ℕ
  pub required_node_fault : Bool

-- `set_required`; false where the table is full.
unfoldable pub set_required : NetworkSupervisor → ℕ → Bool → Bool × NetworkSupervisor
set_required v address required = elim (find_or_create v.nodes address) [
  | none ↦ (false, v)
  | some (i, made) ↦ (
    true,
    record v {
      nodes =
          set made i (update_health (record (get_or made i new_status) { required = required }));
    },
  )
]

-- The members' initial values.
abbrev pub empty_supervisor : NetworkSupervisor
empty_supervisor = record {
  nodes = replicate 16 new_status;
  heartbeat_interval_ms = 1000;
  offline_timeout_ms = 3000;
  rediscovery_interval_ms = 5000;
  last_heartbeat_tx_ms = 0;
  last_discovery_tx_ms = 0;
  required_node_fault = false;
}

-- The constructor.
unfoldable pub new_supervisor : NetworkSupervisor
unfolding set_required
new_supervisor =
    let v₁ = (set_required empty_supervisor NodeAddress.northbridge true).1 in
    let v₂ = (set_required v₁ NodeAddress.lighting true).1 in
    (set_required v₂ NodeAddress.security true).1

unfoldable pub set_heartbeat_interval_ms : NetworkSupervisor → ℕ → NetworkSupervisor
set_heartbeat_interval_ms v value = record v { heartbeat_interval_ms = value }

unfoldable pub set_offline_timeout_ms : NetworkSupervisor → ℕ → NetworkSupervisor
set_offline_timeout_ms v value = record v { offline_timeout_ms = value }

unfoldable pub set_rediscovery_interval_ms : NetworkSupervisor → ℕ → NetworkSupervisor
set_rediscovery_interval_ms v value = record v { rediscovery_interval_ms = value }

unfoldable pub observe_packet : NetworkSupervisor → Packet → ℕ → NetworkSupervisor
observe_packet v p now_ms = record v { nodes = observe v.nodes p now_ms }

-- `NodeHealth::Incompatible`.
abbrev pub is_incompatible : NodeHealth → Bool
is_incompatible incompatible = true
is_incompatible _ = false

-- One round of the loop of `service`.
unfoldable pub check_entry : NodeStatus → ℕ → ℕ → NodeStatus
check_entry e offline_timeout_ms now_ms =
    if not e.discovered
    then e
    else update_health (
        if e.is_online && leb offline_timeout_ms (elapsed now_ms e.last_seen_ms)
        then record e { is_online = false }
        else e)

-- Whether the entry, after its round, is of a required node that is missing.
abbrev pub is_missing : NodeStatus → Bool
is_missing e = e.discovered && (e.required && (not e.is_online || is_incompatible e.health))

-- The loop, with `missing_required`.
unfoldable pub check_entries : List NodeStatus → ℕ → ℕ → Bool → Bool × List NodeStatus
unfolding check_entry
check_entries [] offline_timeout_ms now_ms missing = (missing, [])
check_entries (e ∷ es) offline_timeout_ms now_ms missing =
    let e' = check_entry e offline_timeout_ms now_ms in
    let (found, es') =
      check_entries es offline_timeout_ms now_ms (if is_missing e' then true else missing) in
    (found, e' ∷ es')

module _ {S : Type 0} ⦃t : Transport S⦄ where
  unfoldable pub send_discovery :
      NetworkSupervisor → BikeNode S → ℕ → Bool × NetworkSupervisor × BikeNode S
  send_discovery v n now_ms =
      let (sent, n') =
        send n
          (record empty_packet {
            destination = NodeAddress.broadcast;
            type = MessageType.device_discovery;
          })
          now_ms false in
      if sent then (true, record v { last_discovery_tx_ms = now_ms }, n') else (false, v, n')

  unfoldable pub send_heartbeat :
      NetworkSupervisor → BikeNode S → ℕ → Bool × NetworkSupervisor × BikeNode S
  send_heartbeat v n now_ms =
      let (sent, n') =
        send n
          (record empty_packet {
            destination = NodeAddress.broadcast;
            type = MessageType.heartbeat;
          })
          now_ms false in
      if sent then (true, record v { last_heartbeat_tx_ms = now_ms }, n') else (false, v, n')

  -- The first line of `service`.
  unfoldable pub beat : NetworkSupervisor → BikeNode S → ℕ → NetworkSupervisor × BikeNode S
  beat v n now_ms =
      let (_, v', n') = send_heartbeat v n now_ms in
      if leb v.heartbeat_interval_ms (elapsed now_ms v.last_heartbeat_tx_ms)
      then (v', n')
      else (v, n)

  unfoldable pub service : NetworkSupervisor → BikeNode S → ℕ → NetworkSupervisor × BikeNode S
  unfolding check_entries
  service v n now_ms =
      let (v₁, n₁) = beat v n now_ms in
      let (missing, nodes) = check_entries v₁.nodes v₁.offline_timeout_ms now_ms false in
      let v₂ = record v₁ { nodes = nodes; required_node_fault = missing } in
      let (_, v₃, n₃) = send_discovery v₂ n₁ now_ms in
      if missing && leb v₂.rediscovery_interval_ms (elapsed now_ms v₂.last_discovery_tx_ms)
      then (v₃, n₃)
      else (v₂, n₁)
