-- ===== src/Router/Lookup.antt =====
-- What the operations on the routes do to the lookups, `route_for` and `is_online`.
use motorcycle_computer.Base.{
  ℕ, ◌≤◌, ◌≡◌, ◌≢◌, ◌↔◌, ◌⊎◌, inl, inr, refl, arith, true, false, ◌&&◌, none, some, List, ◌==◌, leb,
  elapsed, if◌then◌else◌, Option-cases, Bool-cases,
}
use motorcycle_computer.Router.Table.{RouteEntry, empty_route, is_route, find_first, update_first}
use motorcycle_computer.Router.{
  Router, port_at, put_route, set_route, remove_route, route_for, touch, mark_seen, is_online,
}
use motorcycle_computer.Router.Routes.{
  count_routes, is_full, put_route-none, put_route-some, update_first-none, update_first-some,
  update_first-found, update_first-empty,
}

module _ {S : Type 0} where
  -- A route is set exactly to an attached port, unless the table is full and has no route to the
  -- address. Then it leads there, and no other lookup changes; otherwise nothing changes.
  pub set_route-route_for :
      (r : Router S) (address port b : ℕ)
      → let (done, r') = set_route r address port in
        (route_for r' b ≡ (if done && b == address then some port else route_for r b))
        × (r'.ports ≡ r.ports)
        × (((done ≡ true)
              × (port_at r port ≢ none)
              × ((route_for r address ≢ none) ⊎ (is_full r.routes ≡ false)))
            ⊎ ((done ≡ false)
                × (r' ≡ r)
                × ((port_at r port ≡ none)
                    ⊎ ((route_for r address ≡ none) × (is_full r.routes ≡ true)))))
  unfolding set_route route_for
  set_route-route_for r address port b = elim (Option-cases (put_route r.routes address port)) [
    | inl n ↦ ground (arith, put_route-none r.routes address port)
    | inr (es, q) ↦ ground (
      arith,
      put_route-none r.routes address port,
      put_route-some r.routes es address port b q,
      Bool-cases (is_full r.routes),
    )
  ]

  -- Removing the only route to an address succeeds exactly when there is one; then the address has
  -- no route, and no other lookup changes.
  pub remove_route-route_for :
      (r : Router S) (address b : ℕ)
      → count_routes address r.routes ≤ 1
      → let (done, r') = remove_route r address in
        (route_for r' b ≡ (if b == address then none else route_for r b))
        × ((done ≡ false) ↔ (route_for r address ≡ none))
  unfolding remove_route route_for
  remove_route-route_for r address b c =
      elim (Option-cases (update_first (is_route address) (λ e. empty_route) r.routes)) [
        | inl n ↦ ground (arith, update_first-none r.routes address (λ e. empty_route) n)
        | inr (es, q) ↦ ground (
          arith,
          update_first-empty r.routes es address b c q,
          update_first-found r.routes es address (λ e. empty_route) q,
        )
      ]

  touch-lookups :
      (r : Router S) (address now_ms b later_ms timeout_ms : ℕ)
      → route_for r address ≢ none
      → let r' = touch r address now_ms in
        (route_for r' b ≡ route_for r b)
        × (is_online r' b later_ms timeout_ms ≡ (
            if b == address
            then leb (elapsed later_ms now_ms) timeout_ms
            else is_online r b later_ms timeout_ms))
  unfolding touch route_for is_online
  touch-lookups r address now_ms b later_ms timeout_ms h =
      let seen = λ (e : RouteEntry). record e { last_seen_ms = now_ms } in
      elim (Option-cases (update_first (is_route address) seen r.routes)) [
        | inl n ↦ absurd (ground (arith, h, update_first-none r.routes address seen n))
        | inr (es, q) ↦
            ground (arith, h, update_first-some r.routes es address b seen (λ e. refl) q)
      ]

  set_route-is_online :
      (r : Router S) (address port b later_ms timeout_ms : ℕ)
      → route_for r address ≡ none
      → b ≢ address
      → is_online (set_route r address port).1 b later_ms timeout_ms
        ≡ is_online r b later_ms timeout_ms
  unfolding set_route is_online
  set_route-is_online r address port b later_ms timeout_ms h ne =
      elim (Option-cases (put_route r.routes address port)) [
        | inl n ↦ ground arith
        | inr (es, q) ↦ ground (arith, put_route-some r.routes es address port b q)
      ]

  route_for-none :
      (r : Router S) (address : ℕ)
      → find_first (is_route address) r.routes ≡ none
      → route_for r address ≡ none
  unfolding route_for
  route_for-none r address h = ground arith

  touch-none :
      (r : Router S) (address now_ms : ℕ) → route_for r address ≡ none → touch r address now_ms ≡ r
  unfolding touch route_for
  touch-none r address now_ms h =
      let seen = λ (e : RouteEntry). record e { last_seen_ms = now_ms } in
      elim (Option-cases (update_first (is_route address) seen r.routes)) [
        | inl n ↦ ground arith
        | inr (es, q) ↦ absurd (ground (arith, h, update_first-found r.routes es address seen q))
      ]

  mark_known :
      (r : Router S) (es : List RouteEntry) (address port now_ms b later_ms timeout_ms : ℕ)
      → update_first
          (is_route address)
          (λ e. record e { port = port; last_seen_ms = now_ms })
          r.routes
        ≡ some es
      → let r' = record r { routes = es } in
        (route_for r' b ≡ (if b == address then some port else route_for r b))
        × (is_online r' b later_ms timeout_ms ≡ (
            if b == address
            then leb (elapsed later_ms now_ms) timeout_ms
            else is_online r b later_ms timeout_ms))
        × ((route_for r address ≢ none) ⊎ ((port_at r port ≢ none) × (is_full r.routes ≡ false)))
  unfolding route_for is_online
  mark_known r es address port now_ms b later_ms timeout_ms q =
      let here = λ (e : RouteEntry). record e { port = port; last_seen_ms = now_ms } in
      ground (
        arith,
        update_first-some r.routes es address b here (λ e. refl) q,
        update_first-found r.routes es address here q,
      )

  mark_unknown :
      (r : Router S) (address port now_ms b later_ms timeout_ms : ℕ)
      → find_first (is_route address) r.routes ≡ none
      → let r' = touch (set_route r address port).1 address now_ms in
        ((route_for r' b ≡ (if b == address then some port else route_for r b))
          × (is_online r' b later_ms timeout_ms ≡ (
              if b == address
              then leb (elapsed later_ms now_ms) timeout_ms
              else is_online r b later_ms timeout_ms))
          × ((route_for r address ≢ none) ⊎ ((port_at r port ≢ none) × (is_full r.routes ≡ false))))
        ⊎ ((r' ≡ r)
            × (route_for r address ≡ none)
            × ((port_at r port ≡ none) ⊎ (is_full r.routes ≡ true)))
  mark_unknown r address port now_ms b later_ms timeout_ms h =
      let r₁ = (set_route r address port).1 in
      ground (
        arith,
        route_for-none r address h,
        set_route-route_for r address port address,
        set_route-route_for r address port b,
        set_route-is_online r address port b later_ms timeout_ms,
        touch-lookups r₁ address now_ms b later_ms timeout_ms,
        touch-none r address now_ms,
      )

  -- A packet from an address that has a route, or that comes in on an attached port while the table
  -- has room, makes the address reachable through the port it came from, and online as long as no
  -- more than the timeout has elapsed since; other addresses keep their route and state. Any other
  -- packet changes nothing.
  pub mark_seen-lookups :
      (r : Router S) (address port now_ms b later_ms timeout_ms : ℕ)
      → let r' = mark_seen r address port now_ms in
        ((route_for r' b ≡ (if b == address then some port else route_for r b))
          × (is_online r' b later_ms timeout_ms ≡ (
              if b == address
              then leb (elapsed later_ms now_ms) timeout_ms
              else is_online r b later_ms timeout_ms))
          × ((route_for r address ≢ none) ⊎ ((port_at r port ≢ none) × (is_full r.routes ≡ false))))
        ⊎ ((r' ≡ r)
            × (route_for r address ≡ none)
            × ((port_at r port ≡ none) ⊎ (is_full r.routes ≡ true)))
  unfolding mark_seen
  mark_seen-lookups r address port now_ms b later_ms timeout_ms =
      let here = λ (e : RouteEntry). record e { port = port; last_seen_ms = now_ms } in
      elim (Option-cases (update_first (is_route address) here r.routes)) [
        | inl n ↦
            rw (n, mark_seen)
              (mark_unknown r address port now_ms b later_ms timeout_ms
                (update_first-none r.routes address here n).0)
        | inr (es, q) ↦
            rw (q, mark_seen) (inl (mark_known r es address port now_ms b later_ms timeout_ms q))
      ]
