-- ===== src/Router/Table.antt =====
-- library/include/bike/router.hpp: the entries of the routing table, and the loops over it.
use motorcycle_computer.Base.{
  ℕ, Bool, true, false, ◌&&◌, Option, none, some, List, [], ◌∷◌, ◌==◌, if◌then◌else◌,
}
use motorcycle_computer.Protocol.Packet.NodeAddress

pub record RouteEntry : Type 0 where
  pub address : ℕ
  pub port : ℕ
  pub active : Bool
  pub last_seen_ms : ℕ

-- `RouteEntry{}`.
abbrev pub empty_route : RouteEntry
empty_route = record { address = NodeAddress.broadcast; port = 0; active = false; last_seen_ms = 0 }

-- A first inactive entry as `set_route` fills it.
abbrev pub new_route : ℕ → ℕ → RouteEntry
new_route address port = record { address = address; port = port; active = true; last_seen_ms = 0 }

-- `route.active && route.address == address`.
abbrev pub is_route : ℕ → RouteEntry → Bool
is_route address e = e.active && e.address == address

-- The first entry that passes a test.
abbrev pub find_first : (RouteEntry → Bool) → List RouteEntry → Option RouteEntry
find_first test [] = none
find_first test (e ∷ es) = if test e then some e else find_first test es

-- The table with that entry changed, if there is one.
abbrev pub update_first :
    (RouteEntry → Bool) → (RouteEntry → RouteEntry) → List RouteEntry → Option (List RouteEntry)
update_first test change [] = none
update_first test change (e ∷ es) =
    let rest = update_first test change es in
    if test e
    then some (change e ∷ es)
    else elim rest [ none ↦ none | some changed ↦ some (e ∷ changed) ]
