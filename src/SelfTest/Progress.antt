-- ===== src/SelfTest/Progress.antt =====
-- How far a self-test is, and when it ends.
use motorcycle_computer.Base.{
  ℕ, zero, suc, ◌+◌, ◌-◌, ◌≤◌, ◌<◌, ◌≡◌, ◌⊎◌, ◌∙◌, refl, ap, arith, Bool, true, false, Option-cases,
  Bool-cases, inl, inr, List, length, length-set, get_or, get_or-set, get_or-set_self, set,
}
use motorcycle_computer.Transport.{Transport}
use motorcycle_computer.Node.{BikeNode}
use motorcycle_computer.Supervisor.{status}
use motorcycle_computer.Supervisor.Service.{NetworkSupervisor}
use motorcycle_computer.SelfTest.{
  TestResult, pending, fail, send_failed, TestItem, SelfTestRunner, new_item, current, close_item,
  finish, refusal, send_request, start_items, start_next,
}

abbrev pub is_done : TestResult → Bool
is_done pending = false
is_done _ = true

-- The items before `index` have a result.
abbrev pub DoneBelow : List TestItem → ℕ → Type 0
DoneBelow items index =
    (k : ℕ) → k < index → is_done (get_or items k (new_item 0 0 0)).result ≡ true

-- Three items, of which those before the current one have a result.
pub record IsUnderWay (r : SelfTestRunner) : Type 0 where
  pub three : length r.items ≡ 3
  pub index_le : r.index ≤ 3
  pub done : DoneBelow r.items r.index

-- What `start_next` ends with: an item that was asked just now, or the report.
abbrev pub IsAsking : SelfTestRunner → ℕ → Type 0
IsAsking r now_ms =
    (r.active ≡ true) × (r.report_ready ≡ false) × (r.index < 3) × ((current r).started ≡ now_ms)

abbrev pub IsReported : SelfTestRunner → Type 0
IsReported r = (r.active ≡ false) × (r.report_ready ≡ true) × (r.index ≡ 3)

pub close_item-IsUnderWay :
    (r : SelfTestRunner) (item : TestItem)
    → IsUnderWay r
    → r.index < 3
    → is_done item.result ≡ true
    → IsUnderWay (close_item r item)
close_item-IsUnderWay r item v lt done = record {
  three = length-set r.items r.index item ∙ v.three;
  index_le = omega arith;
  done = λ k h.
      ground
        (arith, h, lt, done, v.done k, v.three, get_or-set r.items r.index k item (new_item 0 0 0));
}

asking-IsUnderWay :
    (r : SelfTestRunner) (item : TestItem)
    → IsUnderWay r
    → r.index < 3
    → IsUnderWay (record r { items = set r.items r.index item })
      × (get_or (set r.items r.index item) r.index (new_item 0 0 0) ≡ item)
asking-IsUnderWay r item v lt = (
  record {
    three = length-set r.items r.index item ∙ v.three;
    index_le = v.index_le;
    done = λ k h.
        ground
          (arith, h, lt, v.done k h, v.three, get_or-set r.items r.index k item (new_item 0 0 0));
  },
  get_or-set_self r.items r.index item (new_item 0 0 0) (omega (arith, v.three)),
)

-- From one state to one in which an item was just asked or the report is there.
abbrev pub GoesOn : SelfTestRunner → SelfTestRunner → ℕ → Type 0
GoesOn r r' now_ms = IsUnderWay r' × (r.index ≤ r'.index) × (IsAsking r' now_ms ⊎ IsReported r')

module _ {S : Type 0} ⦃t : Transport S⦄ where
  start_items-GoesOn :
      (left : ℕ) (r : SelfTestRunner) (n : BikeNode S) (s : NetworkSupervisor) (now_ms : ℕ)
      → IsUnderWay r
      → left + r.index ≡ 3
      → r.active ≡ true
      → r.report_ready ≡ false
      → GoesOn r (start_items left r n s now_ms).0 now_ms
  unfolding start_items finish
  start_items-GoesOn zero r n s now_ms v e a p = (
    record { three = v.three; index_le = v.index_le; done = v.done },
    omega arith,
    inr (refl, refl, omega (arith, e)),
  )
  start_items-GoesOn (suc left) r n s now_ms v e a p =
      let item = current r in
      let asked : TestItem = record item { started = now_ms } in
      let n' = (send_request n item now_ms).1 in
      let unsent = close_item r (record asked { result = fail; detail = send_failed }) in
      elim (Option-cases (refusal (status s.nodes item.node))) [
        | inr (detail, q) ↦
            let refused = close_item r (record item { result = fail; detail = detail }) in
            let rest =
              start_items-GoesOn left refused n s now_ms
                (close_item-IsUnderWay r (record item { result = fail; detail = detail }) v
                  (omega (arith, e)) refl)
                (omega (arith, e)) a p in
            rw (start_items, q) (rest.0, omega (arith, rest.1), rest.2)
        | inl q ↦ elim (Bool-cases (send_request n item now_ms).0) [
          | inl y ↦
              let asks = asking-IsUnderWay r asked v (omega (arith, e)) in
              rw (start_items, q, y)
                (
                  asks.0,
                  omega arith,
                  inl (a, p, omega (arith, e), ap (λ (i : TestItem). i.started) asks.1),
                )
          | inr f ↦
              let rest =
                start_items-GoesOn left unsent n' s now_ms
                  (close_item-IsUnderWay r (record asked { result = fail; detail = send_failed }) v
                    (omega (arith, e)) refl)
                  (omega (arith, e)) a p in
              rw (start_items, q, f) (rest.0, omega (arith, rest.1), rest.2)
        ]
      ]

  pub start_next-GoesOn :
      (r : SelfTestRunner) (n : BikeNode S) (s : NetworkSupervisor) (now_ms : ℕ)
      → IsUnderWay r
      → r.active ≡ true
      → r.report_ready ≡ false
      → GoesOn r (start_next r n s now_ms).0 now_ms
  unfolding start_next
  start_next-GoesOn r n s now_ms v a p =
      start_items-GoesOn (length r.items - r.index) r n s now_ms v
        (omega (arith, v.three, v.index_le)) a p
