-- ===== src/Router/Routes.antt =====
-- The routing table as a map from addresses, and the loops of the router as its operations.
use motorcycle_computer.Base.{
  ℕ, ◌+◌, ◌-◌, ◌≤◌, ◌≡◌, ◌≢◌, ◌↔◌, inl, inr, refl, arith, Bool, true, not, ◌&&◌, none, some, List,
  [], ◌∷◌, ◌==◌, if◌then◌else◌, Option-cases,
}
use motorcycle_computer.Router.Table.{
  RouteEntry, empty_route, new_route, is_route, find_first, update_first,
}
use motorcycle_computer.Router.{put_route}

-- How many entries are routes to the address.
abbrev pub count_routes : ℕ → List RouteEntry → ℕ
count_routes address [] = 0
count_routes address (e ∷ es) = (if is_route address e then 1 else 0) + count_routes address es

-- No route is counted where none is found.
pub count_routes-none :
    (es : List RouteEntry) (address : ℕ)
    → (count_routes address es ≡ 0) ↔ (find_first (is_route address) es ≡ none)
count_routes-none [] address = ground arith
count_routes-none (e ∷ es) address = ground (arith, count_routes-none es address)

-- The loop that finds nothing.
pub update_first-none :
    (es : List RouteEntry) (address : ℕ) (change : RouteEntry → RouteEntry)
    → update_first (is_route address) change es ≡ none
    → (find_first (is_route address) es ≡ none) × (count_routes address es ≡ 0)
update_first-none [] address change h = (refl, refl)
update_first-none (e ∷ es) address change h = ground (arith, update_first-none es address change)

-- The loop that finds one.
pub update_first-found :
    (es es' : List RouteEntry) (address : ℕ) (change : RouteEntry → RouteEntry)
    → update_first (is_route address) change es ≡ some es'
    → find_first (is_route address) es ≢ none
update_first-found [] es' address change h = absurd (ground (arith, h))
update_first-found (e ∷ es) es' address change h =
    elim (Option-cases (update_first (is_route address) change es)) [
      | inl n ↦ ground arith
      | inr (rest, q) ↦ ground (arith, update_first-found es rest address change q)
    ]

-- The loop that changes a route in place.
pub update_first-some :
    (es es' : List RouteEntry) (address b : ℕ) (change : RouteEntry → RouteEntry)
    → ((e : RouteEntry) → is_route b (change e) ≡ is_route b e)
    → update_first (is_route address) change es ≡ some es'
    → (count_routes b es' ≡ count_routes b es)
      × (find_first (is_route b) es' ≡ (
          if b == address
          then (elim (find_first (is_route b) es) [ none ↦ none | some e ↦ some (change e) ])
          else find_first (is_route b) es))
update_first-some [] es' address b change k h = absurd (ground (arith, h))
update_first-some (e ∷ es) es' address b change k h =
    elim (Option-cases (update_first (is_route address) change es)) [
      | inl n ↦ ground (arith, k e)
      | inr (rest, q) ↦ ground (arith, k e, update_first-some es rest address b change k q)
    ]

-- The loop that fills the first inactive entry.
pub update_first-fill :
    (es es' : List RouteEntry) (new : RouteEntry) (b : ℕ)
    → new.active ≡ true
    → find_first (is_route new.address) es ≡ none
    → update_first (λ e. not e.active) (λ e. new) es ≡ some es'
    → (count_routes b es' ≡ count_routes b es + (if b == new.address then 1 else 0))
      × (find_first (is_route b) es'
          ≡ (if b == new.address then some new else find_first (is_route b) es))
update_first-fill [] es' new b a f h = absurd (ground (arith, h))
update_first-fill (e ∷ es) es' new b a f h =
    elim (Option-cases (update_first (λ e. not e.active) (λ e. new) es)) [
      | inl n ↦ ground arith
      | inr (rest, q) ↦ ground (arith, update_first-fill es rest new b a)
    ]

-- The loop that empties a route.
pub update_first-empty :
    (es es' : List RouteEntry) (address b : ℕ)
    → count_routes address es ≤ 1
    → update_first (is_route address) (λ e. empty_route) es ≡ some es'
    → (count_routes b es' ≡ count_routes b es - (if b == address then 1 else 0))
      × (find_first (is_route b) es' ≡ (if b == address then none else find_first (is_route b) es))
update_first-empty [] es' address b c h = absurd (ground (arith, h))
update_first-empty (e ∷ es) es' address b c h =
    elim (Option-cases (update_first (is_route address) (λ e. empty_route) es)) [
      | inl n ↦ ground (arith, count_routes-none es address, count_routes-none es b)
      | inr (rest, q) ↦
          ground (arith, count_routes-none es address, update_first-empty es rest address b)
    ]

-- Whether the table has no room for a further address.
abbrev pub is_full : List RouteEntry → Bool
is_full [] = true
is_full (e ∷ es) = e.active && is_full es

update_first-full :
    (es : List RouteEntry) (new : RouteEntry)
    → (update_first (λ e. not e.active) (λ e. new) es ≡ none) ↔ (is_full es ≡ true)
update_first-full [] new = ground arith
update_first-full (e ∷ es) new = ground (arith, update_first-full es new)

-- The two loops of `set_route` fail exactly on a full table without a route to the address.
pub put_route-none :
    (es : List RouteEntry) (address port : ℕ)
    → (put_route es address port ≡ none)
      ↔ ((find_first (is_route address) es ≡ none) × (is_full es ≡ true))
unfolding put_route
put_route-none es address port =
    elim (Option-cases (update_first (is_route address) (λ e. record e { port = port }) es)) [
      | inl n ↦ ground (
        arith,
        update_first-none es address (λ e. record e { port = port }) n,
        update_first-full es (new_route address port),
      )
      | inr (es', q) ↦ ground (
        arith,
        update_first-some es es' address address (λ e. record e { port = port }) (λ e. refl) q,
        update_first-found es es' address (λ e. record e { port = port }) q,
      )
    ]

-- Otherwise they make the table route the address to the port, and no other differently.
pub put_route-some :
    (es es' : List RouteEntry) (address port b : ℕ)
    → put_route es address port ≡ some es'
    → (count_routes b es'
        ≡ (if b == address && count_routes address es == 0 then 1 else count_routes b es))
      × (find_first (is_route b) es' ≡ (
          if b == address
          then some (elim (find_first (is_route b) es) [
            | none ↦ new_route address port
            | some e ↦ record e { port = port }
          ])
          else find_first (is_route b) es))
unfolding put_route
put_route-some es es' address port b h =
    elim (Option-cases (update_first (is_route address) (λ e. record e { port = port }) es)) [
      | inl n ↦ ground (
        arith,
        update_first-none es address (λ e. record e { port = port }) n,
        update_first-fill es es' (new_route address port) b,
        count_routes-none es address,
      )
      | inr (es'', q) ↦ ground (
        arith,
        update_first-some es es'' address b (λ e. record e { port = port }) (λ e. refl) q,
        update_first-found es es'' address (λ e. record e { port = port }) q,
        count_routes-none es address,
      )
    ]
