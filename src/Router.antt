-- ===== src/Router.antt =====
-- library/include/bike/router.hpp and library/src/router.cpp: `NorthbridgeRouter`.
--
-- A port points to a transport or is null. The transports that the pointers stand for are one store,
-- from the pointer to the transport's state, so that two ports may share a transport.
pub mod Table
pub mod Routes
pub mod Lookup
pub mod Unique
pub mod Delivery
pub mod Tests
use motorcycle_computer.Base.{
  ℕ, ◌+◌, zero, suc, Bool, true, false, not, ◌&&◌, ◌||◌, Option, none, some, List, get_or, set,
  replicate, leb, elapsed, ◌==◌, if◌then◌else◌,
}
use motorcycle_computer.Protocol.Packet.{Packet, max_frame_size}
use motorcycle_computer.Protocol.Packet.NodeAddress
use motorcycle_computer.Protocol.Codec.{encode_packet}
use motorcycle_computer.Transport.{Transport}
use motorcycle_computer.Router.Table.{
  RouteEntry, empty_route, new_route, is_route, find_first, update_first,
}

abbrev pub max_router_ports : ℕ
max_router_ports = 8

pub record Router (S : Type 0) : Type 0 where
  pub ports : List (Option ℕ)
  pub routes : List RouteEntry
  pub transports : ℕ → S

abbrev pub new_router : {S : Type 0} → (ℕ → S) → Router S
new_router transports = record {
  ports = replicate max_router_ports none;
  routes = replicate max_router_ports empty_route;
  transports = transports;
}

-- The store with one transport changed.
unfoldable pub assign : {S : Type 0} → (ℕ → S) → ℕ → S → ℕ → S
assign transports pointer state k = if k == pointer then state else transports k

-- The loops of `set_route`, for a port that is attached.
unfoldable pub put_route : List RouteEntry → ℕ → ℕ → Option (List RouteEntry)
put_route routes address port =
    elim (update_first (is_route address) (λ e. record e { port = port }) routes) [
      | some changed ↦ some changed
      | none ↦ update_first (λ e. not e.active) (λ e. new_route address port) routes
    ]

module _ {S : Type 0} where
  -- The pointer of a port in range that is not null.
  abbrev pub port_at : Router S → ℕ → Option ℕ
  port_at r port = if leb max_router_ports port then none else get_or r.ports port none

  unfoldable pub attach_port : Router S → ℕ → ℕ → Bool × Router S
  attach_port r port transport =
      if leb max_router_ports port
      then (false, r)
      else (true, record r { ports = set r.ports port (some transport) })

  unfoldable pub set_route : Router S → ℕ → ℕ → Bool × Router S
  set_route r address port = elim (port_at r port) [
    | none ↦ (false, r)
    | some transport ↦ elim (put_route r.routes address port) [
      | none ↦ (false, r)
      | some changed ↦ (true, record r { routes = changed })
    ]
  ]

  unfoldable pub remove_route : Router S → ℕ → Bool × Router S
  remove_route r address = elim (update_first (is_route address) (λ e. empty_route) r.routes) [
    | none ↦ (false, r)
    | some changed ↦ (true, record r { routes = changed })
  ]

  -- `none` stands for -1.
  unfoldable pub route_for : Router S → ℕ → Option ℕ
  route_for r address = elim (find_first (is_route address) r.routes) [
    | none ↦ none
    | some e ↦ some e.port
  ]

  -- The last loop of `mark_seen`.
  unfoldable pub touch : Router S → ℕ → ℕ → Router S
  touch r address now_ms =
      elim (update_first (is_route address) (λ e. record e { last_seen_ms = now_ms }) r.routes) [
        | none ↦ r
        | some changed ↦ record r { routes = changed }
      ]

  unfoldable pub mark_seen : Router S → ℕ → ℕ → ℕ → Router S
  mark_seen r address ingress_port now_ms =
      elim (update_first (is_route address)
        (λ e. record e { port = ingress_port; last_seen_ms = now_ms }) r.routes) [
          | some changed ↦ record r { routes = changed }
          | none ↦ touch (set_route r address ingress_port).1 address now_ms
        ]

  unfoldable pub is_online : Router S → ℕ → ℕ → ℕ → Bool
  is_online r address now_ms timeout_ms = elim (find_first (is_route address) r.routes) [
    | none ↦ false
    | some e ↦ leb (elapsed now_ms e.last_seen_ms) timeout_ms
  ]

module _ {S : Type 0} ⦃t : Transport S⦄ where
  unfoldable pub write_to_port : Router S → ℕ → Packet → Bool × Router S
  write_to_port r port p = elim (port_at r port) [
    | none ↦ (false, r)
    | some transport ↦ elim (encode_packet p (some max_frame_size)) [
      | none ↦ (false, r)
      | some frame ↦
          let (sent, state) = t.write (r.transports transport) frame in
          (sent, record r { transports = assign r.transports transport state })
    ]
  ]

  -- One round of the loop of `forward` for a broadcast.
  unfoldable pub broadcast_to : Bool × Router S → Packet → ℕ → ℕ → Bool × Router S
  broadcast_to (forwarded, r) p ingress_port port =
      let (sent, r') = write_to_port r port p in
      if port == ingress_port
      then (forwarded, r)
      else elim (port_at r port) [ none ↦ (forwarded, r) | some _ ↦ (sent || forwarded, r') ]

  -- The loop, over the `count` ports from `port` on.
  unfoldable pub broadcast_from : Bool × Router S → Packet → ℕ → ℕ → ℕ → Bool × Router S
  broadcast_from q p ingress_port port zero = q
  broadcast_from q p ingress_port port (suc count) =
      broadcast_from (broadcast_to q p ingress_port port) p ingress_port (port + 1) count

  unfoldable pub forward : Router S → Packet → ℕ → ℕ → Bool × Router S
  forward r p ingress_port now_ms =
      let seen = mark_seen r p.source ingress_port now_ms in
      if p.destination == NodeAddress.northbridge
      then (true, seen)
      else if p.destination == NodeAddress.broadcast
      then broadcast_from (false, seen) p ingress_port 0 max_router_ports
      else elim (route_for seen p.destination) [
        | none ↦ (false, seen)
        | some port ↦ if port == ingress_port then (false, seen) else write_to_port seen port p
      ]
