-- ===== src/SelfTest.antt =====
-- raspberry-pi/diagnostic-computer/include/self_test_runner.hpp and
-- raspberry-pi/diagnostic-computer/src/self_test_runner.cpp: `SelfTestRunner`, which asks the three
-- controllers for their state, one after another.
--
-- The node and the supervisor that the calls refer to are passed in, and the node is returned.
pub mod Ends
pub mod Observer
pub mod Progress
pub mod Report
pub mod Tests
use motorcycle_computer.Base.{
  ℕ, zero, suc, ◌+◌, ◌-◌, Bool, true, false, not, ◌&&◌, ◌||◌, Option, none, some, List, [], ◌∷◌,
  map, length, get_or, set, ltb, leb, elapsed, ◌==◌, ◌!=◌, if◌then◌else◌,
}
use motorcycle_computer.Protocol.Packet.{Packet, empty_packet}
use motorcycle_computer.Protocol.Packet.NodeAddress
use motorcycle_computer.Protocol.Packet.MessageType
use motorcycle_computer.Transport.{Transport}
use motorcycle_computer.Node
use motorcycle_computer.Node.{BikeNode}
use motorcycle_computer.Supervisor.{NodeStatus, NodeHealth, incompatible, degraded, status, get_u32}
use motorcycle_computer.Supervisor.Service.{NetworkSupervisor}

pub data TestResult : Type 0 where
  pending pass warn fail : TestResult

-- The texts of `detail`.
pub data Detail : Type 0 where
  empty offline_node incompatible_node send_failed malformed timed_out : Detail
  dropped_packets routing_valid lighting_received security_received node_degraded : Detail

pub record TestItem : Type 0 where
  pub node : ℕ
  pub request : ℕ
  pub response : ℕ
  pub result : TestResult
  pub started : ℕ
  pub elapsed_ms : ℕ
  pub detail : Detail

abbrev pub new_item : ℕ → ℕ → ℕ → TestItem
new_item node request response = record {
  node = node;
  request = request;
  response = response;
  result = pending;
  started = 0;
  elapsed_ms = 0;
  detail = empty;
}

pub record SelfTestRunner : Type 0 where
  pub active : Bool
  pub report_ready : Bool
  pub index : ℕ
  pub started : ℕ
  pub total_elapsed : ℕ
  pub items : List TestItem

-- The members' initial values.
abbrev pub new_runner : SelfTestRunner
new_runner = record {
  active = false;
  report_ready = false;
  index = 0;
  started = 0;
  total_elapsed = 0;
  items =
      new_item NodeAddress.northbridge MessageType.diagnostic MessageType.diagnostic
      ∷ new_item NodeAddress.lighting MessageType.get_state MessageType.state_update
      ∷ new_item NodeAddress.security MessageType.get_state MessageType.security_state
      ∷ [];
}

abbrev pub consume_report : SelfTestRunner → SelfTestRunner
consume_report r = record r { report_ready = false }

-- `items_[index_]`.
abbrev pub current : SelfTestRunner → TestItem
current r = get_or r.items r.index (new_item 0 0 0)

-- The item is changed, and `++index_`.
abbrev pub close_item : SelfTestRunner → TestItem → SelfTestRunner
close_item r item = record r { items = set r.items r.index item; index = r.index + 1 }

unfoldable pub finish : SelfTestRunner → ℕ → SelfTestRunner
finish r now_ms = record r {
  active = false;
  report_ready = true;
  total_elapsed = elapsed now_ms r.started;
}

-- Why the item's node cannot be asked, if so.
abbrev pub refusal : Option NodeStatus → Option Detail
refusal none = some offline_node
refusal (some e) =
    if not e.is_online
    then some offline_node
    else elim (e.health) [ incompatible ↦ some incompatible_node | _ ↦ none ]

abbrev pub is_degraded : Option NodeStatus → Bool
is_degraded none = false
is_degraded (some e) = elim (e.health) [ degraded ↦ true | _ ↦ false ]

module _ {S : Type 0} ⦃t : Transport S⦄ where
  -- The function `send`.
  unfoldable pub send_request : BikeNode S → TestItem → ℕ → Bool × BikeNode S
  send_request n item now_ms =
      Node.send n (record empty_packet { destination = item.node; type = item.request }) now_ms
        false

  -- The loop of `start_next`, over the `left` items from `index_` on.
  unfoldable pub start_items :
      ℕ → SelfTestRunner → BikeNode S → NetworkSupervisor → ℕ → SelfTestRunner × BikeNode S
  start_items zero r n s now_ms = (finish r now_ms, n)
  start_items (suc left) r n s now_ms =
      let item = current r in
      let asked = record item { started = now_ms } in
      let (sent, n') = send_request n item now_ms in
      elim (refusal (status s.nodes item.node)) [
        | some detail ↦
            start_items left (close_item r (record item { result = fail; detail = detail })) n s
              now_ms
        | none ↦ elim sent [
          | true ↦ (record r { items = set r.items r.index asked }, n')
          | false ↦
              start_items left (close_item r (record asked { result = fail; detail = send_failed }))
                n' s now_ms
        ]
      ]

  unfoldable pub start_next :
      SelfTestRunner → BikeNode S → NetworkSupervisor → ℕ → SelfTestRunner × BikeNode S
  unfolding start_items
  start_next r n s now_ms = start_items (length r.items - r.index) r n s now_ms

  unfoldable pub begin :
      SelfTestRunner → BikeNode S → NetworkSupervisor → ℕ → SelfTestRunner × BikeNode S
  begin r n s now_ms =
      let cleared =
        map
          (λ (item : TestItem). record item {
            result = pending;
            started = 0;
            elapsed_ms = 0;
            detail = empty;
          })
          r.items in
      if r.active
      then (r, n)
      else start_next
          (record {
            active = true;
            report_ready = false;
            index = 0;
            started = now_ms;
            total_elapsed = 0;
            items = cleared;
          })
          n s now_ms

-- `i.result == TestResult::Warn`.
abbrev pub is_warn : TestResult → Bool
is_warn warn = true
is_warn _ = false

-- `observe` for a response of the item: what it says of the item, by its node.
unfoldable pub judge : TestItem → Packet → Option NodeStatus → TestItem
judge item p e =
    let valid_length =
      if item.node == NodeAddress.northbridge
      then 18
      else if item.node == NodeAddress.lighting
      then 8
      else 6 in
    let received =
      if item.node == NodeAddress.northbridge
      then routing_valid
      else if item.node == NodeAddress.lighting
      then lighting_received
      else security_received in
    if ltb p.length valid_length
    then record item { result = fail; detail = malformed }
    else if item.node == NodeAddress.northbridge && ltb 0 (get_u32 p.payload 6)
    then record item { result = warn; detail = dropped_packets }
    else if is_warn item.result
    then record item { detail = received }
    else if is_degraded e
    then record item { result = warn; detail = node_degraded }
    else record item { result = pass; detail = received }

module _ {S : Type 0} ⦃t : Transport S⦄ where
  unfoldable pub observe :
      SelfTestRunner → Packet → BikeNode S → NetworkSupervisor → ℕ → SelfTestRunner × BikeNode S
  observe r p n s now_ms =
      let item = current r in
      let timed = record item { elapsed_ms = elapsed now_ms item.started } in
      if not r.active || leb (length r.items) r.index
      then (r, n)
      else if p.source != item.node || p.type != item.response
      then (r, n)
      else start_next (close_item r (judge timed p (status s.nodes item.node))) n s now_ms

  unfoldable pub service :
      SelfTestRunner → BikeNode S → NetworkSupervisor → ℕ → SelfTestRunner × BikeNode S
  service r n s now_ms =
      let item = current r in
      let taken = elapsed now_ms item.started in
      if not r.active || leb (length r.items) r.index
      then (r, n)
      else if leb taken 1000
      then (r, n)
      else start_next
          (close_item r (record item { result = fail; elapsed_ms = taken; detail = timed_out })) n s
          now_ms
