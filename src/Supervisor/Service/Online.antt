-- ===== src/Supervisor/Service/Online.antt =====
-- Which nodes count as online, and when a required one is missing.
use motorcycle_computer.Base.{
  ℕ, ◌≡◌, arith, Bool, true, false, not, ◌&&◌, ◌||◌, List, [], ◌∷◌, map, ltb, elapsed,
  if◌then◌else◌,
}
use motorcycle_computer.Transport.{Transport}
use motorcycle_computer.Node.{BikeNode}
use motorcycle_computer.Supervisor.{
  NodeStatus, NodeHealth, online, degraded, offline, incompatible, update_health,
}
use motorcycle_computer.Supervisor.Service.{
  NetworkSupervisor, check_entry, check_entries, is_missing, beat, send_heartbeat, send_discovery,
  service,
}

-- Heard of less than the timeout ago.
abbrev pub is_heard : NodeStatus → ℕ → ℕ → Bool
is_heard e offline_timeout_ms now_ms =
    e.is_online && ltb (elapsed now_ms e.last_seen_ms) offline_timeout_ms

-- The health of a node that is heard or not.
abbrev pub health_of : NodeStatus → Bool → NodeHealth
health_of e heard =
    if not heard
    then offline
    else if e.identity_valid && not e.protocol_compatible
    then incompatible
    else if ltb 0 e.fault_count
    then degraded
    else online

-- The entry of a discovered node as it is to be after the check; others stay.
abbrev pub checked : ℕ → ℕ → NodeStatus → NodeStatus
checked offline_timeout_ms now_ms e =
    if e.discovered
    then record e {
      is_online = is_heard e offline_timeout_ms now_ms;
      health = health_of e (is_heard e offline_timeout_ms now_ms);
    }
    else e

-- A required node that is not heard, or speaks another version.
abbrev pub is_lost : ℕ → ℕ → NodeStatus → Bool
is_lost offline_timeout_ms now_ms e =
    e.discovered
    && (e.required
        && (not (is_heard e offline_timeout_ms now_ms)
            || (e.identity_valid && not e.protocol_compatible)))

abbrev pub any {ℓ} : {A : Type ℓ} → (A → Bool) → List A → Bool
any p [] = false
any p (x ∷ xs) = p x || any p xs

check_entry-checked :
    (e : NodeStatus) (offline_timeout_ms now_ms : ℕ)
    → (check_entry e offline_timeout_ms now_ms ≡ checked offline_timeout_ms now_ms e)
      × (is_missing (check_entry e offline_timeout_ms now_ms) ≡ is_lost offline_timeout_ms now_ms e)
unfolding check_entry update_health
check_entry-checked e offline_timeout_ms now_ms = ground arith

check_entries-checked :
    (es : List NodeStatus) (offline_timeout_ms now_ms : ℕ) (missing : Bool)
    → ((check_entries es offline_timeout_ms now_ms missing).1
        ≡ map (checked offline_timeout_ms now_ms) es)
      × ((check_entries es offline_timeout_ms now_ms missing).0
          ≡ (missing || any (is_lost offline_timeout_ms now_ms) es))
unfolding check_entries
check_entries-checked [] offline_timeout_ms now_ms missing = ground arith
check_entries-checked (e ∷ es) offline_timeout_ms now_ms missing =
    let e' = check_entry e offline_timeout_ms now_ms in
    ground (
      arith,
      check_entry-checked e offline_timeout_ms now_ms,
      check_entries-checked es offline_timeout_ms now_ms (if is_missing e' then true else missing),
    )

module _ {S : Type 0} ⦃t : Transport S⦄ where
  send_heartbeat-only :
      (v : NetworkSupervisor) (n : BikeNode S) (now_ms : ℕ)
      → ((send_heartbeat v n now_ms).1.nodes ≡ v.nodes)
        × ((send_heartbeat v n now_ms).1.offline_timeout_ms ≡ v.offline_timeout_ms)
  unfolding send_heartbeat
  send_heartbeat-only v n now_ms = ground arith

  send_discovery-only :
      (v : NetworkSupervisor) (n : BikeNode S) (now_ms : ℕ)
      → ((send_discovery v n now_ms).1.nodes ≡ v.nodes)
        × ((send_discovery v n now_ms).1.required_node_fault ≡ v.required_node_fault)
  unfolding send_discovery
  send_discovery-only v n now_ms = ground arith

  -- After a round of the supervisor exactly the discovered nodes that were online and heard of less
  -- than the timeout ago are online, each with the health that follows; the fault flag says whether
  -- a required node is not among them or speaks another version; and nothing else of the table
  -- changes.
  pub service-checked :
      (v : NetworkSupervisor) (n : BikeNode S) (now_ms : ℕ)
      → ((service v n now_ms).0.nodes ≡ map (checked v.offline_timeout_ms now_ms) v.nodes)
        × ((service v n now_ms).0.required_node_fault
            ≡ any (is_lost v.offline_timeout_ms now_ms) v.nodes)
  unfolding service beat
  service-checked v n now_ms =
      let beaten = beat v n now_ms in
      let (missing, nodes) =
        check_entries beaten.0.nodes beaten.0.offline_timeout_ms now_ms false in
      let v₂ = record (beaten.0) { nodes = nodes; required_node_fault = missing } in
      ground (
        arith,
        send_heartbeat-only v n now_ms,
        check_entries-checked v.nodes v.offline_timeout_ms now_ms false,
        send_discovery-only v₂ beaten.1 now_ms,
      )
