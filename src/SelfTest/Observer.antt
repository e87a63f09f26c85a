-- ===== src/SelfTest/Observer.antt =====
-- The self-test as the observer of the main computer's packets, which
-- raspberry-pi/main-computer/src/main.cpp sets.
use motorcycle_computer.Base.{
  ℕ, zero, suc, refl, arith, false, Option-cases, Bool-cases, inl, inr, elapsed,
}
use motorcycle_computer.Transport.{Transport}
use motorcycle_computer.Node.{BikeNode}
use motorcycle_computer.Node.Drain.{IsClosed, IsQuiet, send-quiet}
use motorcycle_computer.Supervisor.{status}
use motorcycle_computer.Supervisor.Service.{NetworkSupervisor}
use motorcycle_computer.SelfTest.{
  TestItem, SelfTestRunner, fail, send_failed, current, close_item, refusal, send_request,
  start_items, start_next, judge, observe,
}
use motorcycle_computer.MotorcycleComputer.{PacketObserver}
use motorcycle_computer.MotorcycleComputer.Loop.{IsCalm}

module _ {S : Type 0} ⦃t : Transport S⦄ where
  -- The first call in the function that main.cpp passes to `set_packet_observer`.
  abbrev pub test_observer : PacketObserver S SelfTestRunner
  test_observer r n v p now_ms = observe r p n v now_ms

module _ {S : Type 0} ⦃t : Transport S⦄ (left : S → ℕ) (c : IsClosed t left) where
  send_request-quiet :
      (n : BikeNode S) (item : TestItem) (now_ms : ℕ)
      → IsQuiet left n (send_request n item now_ms).1
  unfolding send_request
  send_request-quiet n item now_ms = send-quiet left c n _ now_ms false

  start_items-quiet :
      (left_items : ℕ) (r : SelfTestRunner) (n : BikeNode S) (v : NetworkSupervisor) (now_ms : ℕ)
      → IsQuiet left n (start_items left_items r n v now_ms).1
  unfolding start_items
  start_items-quiet zero r n v now_ms = (refl, omega arith)
  start_items-quiet (suc more) r n v now_ms =
      let item = current r in
      let asked : TestItem = record item { started = now_ms } in
      let n' = (send_request n item now_ms).1 in
      let unsent = close_item r (record asked { result = fail; detail = send_failed }) in
      let sent = send_request-quiet n item now_ms in
      elim (Option-cases (refusal (status v.nodes item.node))) [
        | inr (detail, q) ↦
            let refused = close_item r (record item { result = fail; detail = detail }) in
            rw (start_items, q) (start_items-quiet more refused n v now_ms)
        | inl q ↦ elim (Bool-cases (send_request n item now_ms).0) [
          | inl y ↦ rw (start_items, q, y) sent
          | inr f ↦
              let rest = start_items-quiet more unsent n' v now_ms in
              rw (start_items, q, f) (ground (arith, sent, rest))
        ]
      ]

  start_next-quiet :
      (r : SelfTestRunner) (n : BikeNode S) (v : NetworkSupervisor) (now_ms : ℕ)
      → IsQuiet left n (start_next r n v now_ms).1
  unfolding start_next
  start_next-quiet r n v now_ms = start_items-quiet _ r n v now_ms

  -- The self-test may send, and takes no packet.
  pub test_observer-IsCalm : IsCalm left test_observer
  unfolding observe
  test_observer-IsCalm r n v p now_ms =
      let item = current r in
      let timed : TestItem = record item { elapsed_ms = elapsed now_ms item.started } in
      let judged = judge timed p (status v.nodes item.node) in
      ground (arith, start_next-quiet (close_item r judged) n v now_ms)
