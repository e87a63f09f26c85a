-- ===== src/Router/Unique.antt =====
-- No address ever has two routes.
use motorcycle_computer.Base.{
  ℕ, ◌≤◌, ◌≡◌, refl, arith, zero, suc, replicate, Option-cases, inl, inr,
}
use motorcycle_computer.Protocol.Packet.{Packet}
use motorcycle_computer.Transport.{Transport}
use motorcycle_computer.Router.Table.{RouteEntry, empty_route, is_route, update_first}
use motorcycle_computer.Router.{
  Router, new_router, attach_port, put_route, set_route, remove_route, touch, mark_seen, forward,
}
use motorcycle_computer.Router.Routes.{
  count_routes, update_first-some, update_first-empty, put_route-some,
}
use motorcycle_computer.Router.Delivery.{forward-SameTables}

count_routes-replicate : (n address : ℕ) → count_routes address (replicate n empty_route) ≡ 0
count_routes-replicate zero address = refl
count_routes-replicate (suc n) address = ground (arith, count_routes-replicate n address)

module _ {S : Type 0} where
  -- At most one route for each address.
  abbrev pub IsUnique : Router S → Type 0
  IsUnique r = (address : ℕ) → count_routes address r.routes ≤ 1

  set_route-IsUnique :
      (r : Router S) (address port : ℕ) → IsUnique r → IsUnique (set_route r address port).1
  unfolding set_route
  set_route-IsUnique r address port u b = elim (Option-cases (put_route r.routes address port)) [
    | inl n ↦ ground (arith, n, u b)
    | inr (es, q) ↦ ground (arith, q, u b, put_route-some r.routes es address port b q)
  ]

  remove_route-IsUnique :
      (r : Router S) (address : ℕ) → IsUnique r → IsUnique (remove_route r address).1
  unfolding remove_route
  remove_route-IsUnique r address u b =
      elim (Option-cases (update_first (is_route address) (λ e. empty_route) r.routes)) [
        | inl n ↦ ground (arith, n, u b)
        | inr (es, q) ↦
            ground (arith, q, u b, update_first-empty r.routes es address b (u address) q)
      ]

  touch-IsUnique :
      (r : Router S) (address now_ms : ℕ) → IsUnique r → IsUnique (touch r address now_ms)
  unfolding touch
  touch-IsUnique r address now_ms u b =
      let seen = λ (e : RouteEntry). record e { last_seen_ms = now_ms } in
      elim (Option-cases (update_first (is_route address) seen r.routes)) [
        | inl n ↦ ground (arith, n, u b)
        | inr (es, q) ↦
            ground (arith, q, u b, update_first-some r.routes es address b seen (λ e. refl) q)
      ]

  mark_seen-IsUnique :
      (r : Router S) (address port now_ms : ℕ)
      → IsUnique r
      → IsUnique (mark_seen r address port now_ms)
  unfolding mark_seen
  mark_seen-IsUnique r address port now_ms u b =
      let here = λ (e : RouteEntry). record e { port = port; last_seen_ms = now_ms } in
      elim (Option-cases (update_first (is_route address) here r.routes)) [
        | inl n ↦
            rw (n, mark_seen)
              (touch-IsUnique (set_route r address port).1 address now_ms
                (set_route-IsUnique r address port u) b)
        | inr (es, q) ↦
            rw (q, mark_seen)
              (ground (arith, u b, update_first-some r.routes es address b here (λ e. refl) q))
      ]

module _ {S : Type 0} ⦃t : Transport S⦄ where
  -- The operations, and what the ports receive and send otherwise.
  pub data Step (r : Router S) : Router S → Type 0 where
    attached : (port transport : ℕ) → Step r (attach_port r port transport).1
    routed : (address port : ℕ) → Step r (set_route r address port).1
    removed : (address : ℕ) → Step r (remove_route r address).1
    seen : (address port now_ms : ℕ) → Step r (mark_seen r address port now_ms)
    forwarded : (p : Packet) (port now_ms : ℕ) → Step r (forward r p port now_ms).1
    transported : (transports : ℕ → S) → Step r (record r { transports = transports })

  pub data Reach (r : Router S) : Router S → Type 0 where
    here : Reach r r
    next : {u v : Router S} → Reach r u → Step u v → Reach r v

  forward-IsUnique :
      (r : Router S) (p : Packet) (port now_ms : ℕ)
      → IsUnique r
      → IsUnique (forward r p port now_ms).1
  forward-IsUnique r p port now_ms u b =
      let same = forward-SameTables r p port now_ms in
      rw same.routes (mark_seen-IsUnique r p.source port now_ms u b)

  attach_port-IsUnique :
      (r : Router S) (port transport : ℕ) → IsUnique r → IsUnique (attach_port r port transport).1
  unfolding attach_port
  attach_port-IsUnique r port transport u b = ground (arith, u b)

  Step-IsUnique : {r r' : Router S} → Step r r' → IsUnique r → IsUnique r'
  Step-IsUnique {r} (attached port transport) u = attach_port-IsUnique r port transport u
  Step-IsUnique {r} (routed address port) u = set_route-IsUnique r address port u
  Step-IsUnique {r} (removed address) u = remove_route-IsUnique r address u
  Step-IsUnique {r} (seen address port now_ms) u = mark_seen-IsUnique r address port now_ms u
  Step-IsUnique {r} (forwarded p port now_ms) u = forward-IsUnique r p port now_ms u
  Step-IsUnique (transported transports) u = u

  Reach-IsUnique : {r r' : Router S} → Reach r r' → IsUnique r → IsUnique r'
  Reach-IsUnique here u = u
  Reach-IsUnique (next reached st) u = Step-IsUnique st (Reach-IsUnique reached u)

  -- No sequence of operations gives an address of a new router two routes.
  pub Reach-new_router :
      (transports : ℕ → S) (r : Router S) (address : ℕ)
      → Reach (new_router transports) r
      → count_routes address r.routes ≤ 1
  Reach-new_router transports r address reached =
      Reach-IsUnique reached (λ b. ground (arith, count_routes-replicate 8 b)) address
