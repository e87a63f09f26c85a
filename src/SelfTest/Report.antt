-- ===== src/SelfTest/Report.antt =====
-- When the report of a self-test is there, and what it holds.
use motorcycle_computer.Base.{
  ℕ, suc, ◌<◌, ◌≡◌, ◌⊎◌, ◌∙◌, refl, ap, arith, Bool, true, false, not, ◌||◌, inl, inr, Option, List,
  [], ◌∷◌, map, length, leb, elapsed, ◌!=◌, if◌then◌else◌,
}
use motorcycle_computer.Protocol.Packet.{Packet}
use motorcycle_computer.Transport.{Transport}
use motorcycle_computer.Node.{BikeNode}
use motorcycle_computer.Supervisor.{NodeStatus, status}
use motorcycle_computer.Supervisor.Service.{NetworkSupervisor}
use motorcycle_computer.SelfTest.{
  TestItem, SelfTestRunner, fail, pending, empty, timed_out, new_runner, current, close_item,
  start_next, begin, judge, observe, service, consume_report,
}
use motorcycle_computer.SelfTest.Progress.{
  is_done, DoneBelow, GoesOn, start_next-GoesOn, close_item-IsUnderWay,
}

-- A runner is under way, or stands still; it has a report only where every item has a result.
pub record IsSound (r : SelfTestRunner) : Type 0 where
  pub three : length r.items ≡ 3
  pub state :
      ((r.active ≡ true) × (r.report_ready ≡ false) × (r.index < 3) × DoneBelow r.items r.index)
      ⊎ ((r.active ≡ false) × ((r.report_ready ≡ false) ⊎ DoneBelow r.items 3))

pub GoesOn-IsSound : (r r' : SelfTestRunner) (now_ms : ℕ) → GoesOn r r' now_ms → IsSound r'
GoesOn-IsSound r r' now_ms (v, le, inl asks) = record {
  three = v.three;
  state = inl (asks.0, asks.1, asks.2, v.done);
}
GoesOn-IsSound r r' now_ms (v, le, inr done) = record {
  three = v.three;
  state = inr (done.0, inr (rw (← done.2) v.done));
}

judge-is_done :
    (item : TestItem) (p : Packet) (e : Option NodeStatus) → is_done (judge item p e).result ≡ true
unfolding judge
judge-is_done item p e = ground arith

-- Both ways of a test.
if-either :
    {A : Type 0} (P : A → Type 0) (c : Bool) (x y : A)
    → P x
    → (c ≡ false → P y)
    → P (if c then x else y)
if-either P true x y p q = p
if-either P false x y p q = q refl

length-map : (f : TestItem → TestItem) (items : List TestItem) → length (map f items) ≡ length items
length-map f [] = refl
length-map f (item ∷ items) = ap suc (length-map f items)

-- What an active runner is.
pub under_way :
    (r : SelfTestRunner)
    → IsSound r
    → r.active ≡ true
    → (r.active ≡ true) × (r.report_ready ≡ false) × (r.index < 3) × DoneBelow r.items r.index
under_way r v a = elim (v.state) [ inl w ↦ w | inr w ↦ absurd (ground (arith, w.0, a)) ]

reported :
    (r : SelfTestRunner)
    → IsSound r
    → r.report_ready ≡ true
    → (r.active ≡ false) × (length r.items ≡ 3) × DoneBelow r.items 3
reported r v e = elim (v.state) [
  | inl w ↦ absurd (ground (arith, w.1, e))
  | inr (a, inl none) ↦ absurd (ground (arith, none, e))
  | inr (a, inr done) ↦ (a, v.three, done)
]

consumed-IsSound : (r : SelfTestRunner) → IsSound r → IsSound (consume_report r)
consumed-IsSound r v = elim (v.state) [
  | inl w ↦ record { three = v.three; state = inl (w.0, refl, w.2, w.3) }
  | inr w ↦ record { three = v.three; state = inr (w.0, inl refl) }
]

module _ {S : Type 0} ⦃t : Transport S⦄ where
  -- A runner that is under way and closes its item.
  pub close_item-GoesOn :
      (r : SelfTestRunner) (item : TestItem) (n : BikeNode S) (s : NetworkSupervisor) (now_ms : ℕ)
      → length r.items ≡ 3
      → (r.active ≡ true) × (r.report_ready ≡ false) × (r.index < 3) × DoneBelow r.items r.index
      → is_done item.result ≡ true
      → GoesOn (close_item r item) (start_next (close_item r item) n s now_ms).0 now_ms
  close_item-GoesOn r item n s now_ms three v done =
      start_next-GoesOn (close_item r item) n s now_ms
        (close_item-IsUnderWay r item
          (record { three = three; index_le = omega (arith, v.2); done = v.3 }) v.2 done)
        v.0 v.1

  begin-IsSound :
      (r : SelfTestRunner) (n : BikeNode S) (s : NetworkSupervisor) (now_ms : ℕ)
      → IsSound r
      → IsSound (begin r n s now_ms).0
  unfolding begin
  begin-IsSound r n s now_ms v =
      let cleared : SelfTestRunner = record {
        active = true;
        report_ready = false;
        index = 0;
        started = now_ms;
        total_elapsed = 0;
        items =
            map
              (λ (item : TestItem). record item {
                result = pending;
                started = 0;
                elapsed_ms = 0;
                detail = empty;
              })
              r.items;
      } in
      let three : length cleared.items ≡ 3 = length-map _ r.items ∙ v.three in
      if-either (λ (q : SelfTestRunner × BikeNode S). IsSound q.0) r.active (r, n) _ v
        (λ _. GoesOn-IsSound cleared _ now_ms (
          start_next-GoesOn cleared n s now_ms
            (record {
              three = three;
              index_le = omega arith;
              done = λ k h. absurd (omega (arith, h));
            })
            refl refl))

  observe-IsSound :
      (r : SelfTestRunner) (p : Packet) (n : BikeNode S) (s : NetworkSupervisor) (now_ms : ℕ)
      → IsSound r
      → IsSound (observe r p n s now_ms).0
  unfolding observe
  observe-IsSound r p n s now_ms v =
      let item = current r in
      let timed : TestItem = record item { elapsed_ms = elapsed now_ms item.started } in
      let judged = judge timed p (status s.nodes item.node) in
      let Sound = λ (q : SelfTestRunner × BikeNode S). IsSound q.0 in
      if-either Sound (not r.active || leb (length r.items) r.index) (r, n) _ v
        (λ f.
          if-either Sound (p.source != item.node || p.type != item.response) (r, n) _ v
            (λ _. GoesOn-IsSound (close_item r judged) _ now_ms (
              close_item-GoesOn r judged n s now_ms v.three (under_way r v (ground (arith, f)))
                (judge-is_done timed p (status s.nodes item.node)))))

  service-IsSound :
      (r : SelfTestRunner) (n : BikeNode S) (s : NetworkSupervisor) (now_ms : ℕ)
      → IsSound r
      → IsSound (service r n s now_ms).0
  unfolding service
  service-IsSound r n s now_ms v =
      let item = current r in
      let taken = elapsed now_ms item.started in
      let late : TestItem = record item { result = fail; elapsed_ms = taken; detail = timed_out } in
      let Sound = λ (q : SelfTestRunner × BikeNode S). IsSound q.0 in
      if-either Sound (not r.active || leb (length r.items) r.index) (r, n) _ v
        (λ f.
          if-either Sound (leb taken 1000) (r, n) _ v
            (λ _. GoesOn-IsSound (close_item r late) _ now_ms (
              close_item-GoesOn r late n s now_ms v.three (under_way r v (ground (arith, f)))
                refl)))

module _ (S : Type 0) ⦃t : Transport S⦄ where
  -- What a program may do with a runner, with its node and its supervisor as they are then.
  pub data Reach : SelfTestRunner → Type 0 where
    made : Reach new_runner
    begun :
        {r : SelfTestRunner} (n : BikeNode S) (s : NetworkSupervisor) (now_ms : ℕ)
        → Reach r
        → Reach (begin r n s now_ms).0
    observed :
        {r : SelfTestRunner} (p : Packet) (n : BikeNode S) (s : NetworkSupervisor) (now_ms : ℕ)
        → Reach r
        → Reach (observe r p n s now_ms).0
    serviced :
        {r : SelfTestRunner} (n : BikeNode S) (s : NetworkSupervisor) (now_ms : ℕ)
        → Reach r
        → Reach (service r n s now_ms).0
    consumed : {r : SelfTestRunner} → Reach r → Reach (consume_report r)

  pub Reach-IsSound : {r : SelfTestRunner} → Reach r → IsSound r
  Reach-IsSound made = record { three = refl; state = inr (refl, inl refl) }
  Reach-IsSound (begun {r} n s now_ms h) = begin-IsSound r n s now_ms (Reach-IsSound h)
  Reach-IsSound (observed {r} p n s now_ms h) = observe-IsSound r p n s now_ms (Reach-IsSound h)
  Reach-IsSound (serviced {r} n s now_ms h) = service-IsSound r n s now_ms (Reach-IsSound h)
  Reach-IsSound (consumed {r} h) = consumed-IsSound r (Reach-IsSound h)

  -- However a runner is used from the start, and whatever its node and its supervisor are in each
  -- call: when it has a report, it is not active and each of the three items has a result; and
  -- while it is active it has no report, and one of the items is the current one, before which all have a result.
  pub Reach-report :
      {r : SelfTestRunner}
      → Reach r
      → (r.report_ready ≡ true → (r.active ≡ false) × (length r.items ≡ 3) × DoneBelow r.items 3)
        × (r.active ≡ true → (r.report_ready ≡ false) × (r.index < 3) × DoneBelow r.items r.index)
  Reach-report {r} h =
      let v = Reach-IsSound h in
      (λ e. reported r v e, λ e. let w = under_way r v e in (w.1, w.2, w.3))
