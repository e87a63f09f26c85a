-- ===== src/MotorcycleComputer/Loop.antt =====
-- library/src/motorcycle_computer.cpp: `MotorcycleComputer::service`, with fuel for its loop.
use motorcycle_computer.Base.{
  ℕ, zero, suc, ◌+◌, ◌≤◌, ◌<◌, ◌≡◌, refl, sym, arith, ap, ◌∙◌, Option, some, none, Option-cases,
  inl, inr, List, [], ◌∷◌, length,
}
use motorcycle_computer.Protocol.Packet.{Packet}
use motorcycle_computer.Transport.{Transport}
use motorcycle_computer.Node.{BikeNode, poll}
use motorcycle_computer.Node.Drain.{
  IsClosed, IsQuiet, load, Ended-none, Ended-some, drain, drain_done, drain_next, and_then,
  poll-some, drain-ends,
}
use motorcycle_computer.Supervisor.Service.{NetworkSupervisor, observe_packet}
use motorcycle_computer.MotorcycleComputer.{
  PacketObserver, MotorcycleComputer, dispatch, decode, decode_northbridge, decode_security,
  finish_service,
}

module _ {S O : Type 0} where
  abbrev pub node_of : MotorcycleComputer S O → BikeNode S
  node_of m = m.node

  abbrev pub put_node : MotorcycleComputer S O → BikeNode S → MotorcycleComputer S O
  put_node m n = record m { node = n }

module _ {S O : Type 0} ⦃t : Transport S⦄ (notify : PacketObserver S O) where
  unfoldable pub service : ℕ → MotorcycleComputer S O → ℕ → Option (MotorcycleComputer S O)
  service fuel m now_ms =
      and_then (drain node_of put_node (dispatch notify) fuel m now_ms)
        (λ m'. finish_service m' now_ms)

-- The decoders leave the node.
module _ {S O : Type 0} where
  decode_security-node :
      (m : MotorcycleComputer S O) (p : Packet) (now_ms : ℕ)
      → (decode_security m p now_ms).node ≡ m.node
  unfolding decode_security
  decode_security-node m p now_ms = ground arith

  decode_northbridge-node :
      (m : MotorcycleComputer S O) (p : Packet) (now_ms : ℕ)
      → (decode_northbridge m p now_ms).node ≡ m.node
  unfolding decode_northbridge
  decode_northbridge-node m p now_ms = ground (arith, decode_security-node m p now_ms)

  decode-node :
      (m : MotorcycleComputer S O) (p : Packet) (now_ms : ℕ) → (decode m p now_ms).node ≡ m.node
  unfolding decode
  decode-node m p now_ms = ground (arith, decode_northbridge-node m p now_ms)

module _ {S O : Type 0} ⦃t : Transport S⦄ (notify : PacketObserver S O) (now_ms : ℕ) where
  -- The packets that a computer takes from its node and dispatches, oldest first, until the node has
  -- none; what is dispatched may use the node before the next packet is taken.
  pub data TakesAll : MotorcycleComputer S O → List Packet → MotorcycleComputer S O → Type 0 where
    done :
        {m : MotorcycleComputer S O}
        → (poll m.node now_ms).0 ≡ none
        → TakesAll m [] (put_node m (poll m.node now_ms).1)
    more :
        {m m' : MotorcycleComputer S O} {p : Packet} {ps : List Packet}
        → (poll m.node now_ms).0 ≡ some p
        → TakesAll (dispatch notify (put_node m (poll m.node now_ms).1) p now_ms) ps m'
        → TakesAll m (p ∷ ps) m'

  drain-TakesAll :
      (fuel : ℕ) (m m' : MotorcycleComputer S O)
      → drain node_of put_node (dispatch notify) fuel m now_ms ≡ some m'
      → (ps : List Packet) × TakesAll m ps m'
  unfolding drain
  drain-TakesAll zero m m' e = absurd (ground (arith, e))
  drain-TakesAll (suc fuel) m m' e =
      let n = (poll m.node now_ms).1 in
      elim (Option-cases ((poll m.node now_ms).0)) [
        | inl q ↦
            let same : put_node m n ≡ m' =
              ground
                (arith, sym (drain_done node_of put_node (dispatch notify) fuel m now_ms q) ∙ e) in
            ([], rw (← same) (done {m = m} q))
        | inr (p, q) ↦
            let (ps, rest) =
              drain-TakesAll fuel (dispatch notify (put_node m n) p now_ms) m'
                (sym (drain_next node_of put_node (dispatch notify) fuel m now_ms p q) ∙ e) in
            (p ∷ ps, more {m = m} q rest)
      ]

-- An observer takes no packet from the node, and brings no bytes for it.
abbrev pub IsCalm : {S O : Type 0} → (S → ℕ) → PacketObserver S O → Type 0
IsCalm {S} {O} left notify =
    (o : O) (n : BikeNode S) (v : NetworkSupervisor) (p : Packet) (now_ms : ℕ)
    → IsQuiet left n (notify o n v p now_ms).1

module _ {S O : Type 0} ⦃t : Transport S⦄ (notify : PacketObserver S O) (left : S → ℕ)
    (c : IsClosed t left) (calm : IsCalm left notify) where
  dispatch-load :
      (m : MotorcycleComputer S O) (p : Packet) (now_ms : ℕ)
      → load left (dispatch notify m p now_ms).node ≤ load left m.node
  unfolding dispatch
  dispatch-load m p now_ms =
      let v = observe_packet m.supervisor p now_ms in
      let told = notify m.observer m.node v p now_ms in
      let same =
        ap (λ (n : BikeNode S). load left n)
          (decode-node (record m { supervisor = v; observer = told.0; node = told.1 }) p now_ms) in
      omega (arith, same, calm m.observer m.node v p now_ms)

  TakesAll-length :
      (now_ms : ℕ) {m m' : MotorcycleComputer S O} {ps : List Packet}
      → TakesAll notify now_ms m ps m'
      → length ps ≤ load left m.node
  TakesAll-length now_ms (done q) = omega arith
  TakesAll-length now_ms {m} (more {p = p} q rest) =
      let told = put_node m (poll m.node now_ms).1 in
      omega (
        arith,
        TakesAll-length now_ms rest,
        dispatch-load told p now_ms,
        poll-some left c m.node now_ms p q,
      )

  -- While no more bytes come in than the transport has, and with an observer that may send on the node
  -- but takes no packet from it and brings no bytes for it, a round of the main computer ends when
  -- it has one unit of fuel more than there are queued packets and bytes left. It takes packets from
  -- its node and dispatches each before it takes the next, at most as many as there were queued
  -- packets and bytes, until the node has none; its queue is then empty, the rest of the round
  -- follows, and more fuel gives the same result.
  pub service-dispatches :
      (m : MotorcycleComputer S O) (now_ms fuel extra : ℕ)
      → load left m.node < fuel
      → (ps : List Packet) × (m' : MotorcycleComputer S O) × TakesAll notify now_ms m ps m'
        × (length ps ≤ load left m.node)
        × (m'.node.rx_count ≡ 0)
        × (service notify (extra + fuel) m now_ms ≡ some (finish_service m' now_ms))
  unfolding service
  service-dispatches m now_ms fuel extra h =
      let loop =
        drain-ends left c node_of put_node (dispatch notify) (λ _. Unit) fuel extra m now_ms
          (λ y n. refl) (λ y p. dispatch-load y p now_ms) (λ y n _. tt) (λ y p _. tt) tt h in
      elim (Option-cases (drain node_of put_node (dispatch notify) fuel m now_ms)) [
        | inl q ↦ absurd (Ended-none _ _ q loop.0)
        | inr (m', q) ↦
            let (ps, all) = drain-TakesAll notify now_ms fuel m m' q in
            (
              ps,
              m',
              all,
              TakesAll-length now_ms all,
              (Ended-some _ _ m' q loop.0).0,
              ap (λ o. and_then o (λ x. finish_service x now_ms)) (loop.1 ∙ q),
            )
      ]
