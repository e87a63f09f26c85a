-- ===== src/SelfTest/Ends.antt =====
-- That a self-test ends, whether or not the controllers answer.
use motorcycle_computer.Base.{
  ℕ, ◌+◌, ◌≤◌, ◌<◌, ◌≡◌, ◌⊎◌, ◌∙◌, refl, ap, arith, Bool, true, false, not, ◌||◌, inl, inr, List,
  [], ◌∷◌, length, leb, elapsed, if◌then◌else◌,
}
use motorcycle_computer.Transport.{Transport}
use motorcycle_computer.Node.{BikeNode}
use motorcycle_computer.Supervisor.Service.{NetworkSupervisor}
use motorcycle_computer.SelfTest.{
  TestItem, SelfTestRunner, fail, timed_out, current, close_item, service,
}
use motorcycle_computer.SelfTest.Progress.{GoesOn}
use motorcycle_computer.SelfTest.Report.{
  IsSound, under_way, close_item-GoesOn, GoesOn-IsSound, Reach, Reach-IsSound,
}

-- A call of `service`, with the node and the supervisor as they are then.
pub record Visit (S : Type 0) : Type 0 where
  pub node : BikeNode S
  pub supervisor : NetworkSupervisor
  pub now_ms : ℕ

-- Each call is more than the timeout of a response after the one before, and the first after `started`.
abbrev pub AreLate : {S : Type 0} → ℕ → List (Visit S) → Type 0
AreLate started [] = Unit
AreLate started (v ∷ visits) = (1000 < elapsed v.now_ms started) × AreLate v.now_ms visits

-- The second way of a test.
if-not :
    {A : Type 0} (P : A → Type 0) (c : Bool) (x y : A) → c ≡ false → P y → P (if c then x else y)
if-not P true x y e p = absurd (ground (arith, e))
if-not P false x y e p = p

module _ {S : Type 0} ⦃t : Transport S⦄ where
  unfoldable pub serve_all : SelfTestRunner → List (Visit S) → SelfTestRunner
  serve_all r [] = r
  serve_all r (v ∷ visits) = serve_all (service r v.node v.supervisor v.now_ms).0 visits

  -- The item is given up, and the next one asked, or the report is there.
  service-late :
      (r : SelfTestRunner) (n : BikeNode S) (s : NetworkSupervisor) (now_ms : ℕ)
      → IsSound r
      → r.active ≡ true
      → 1000 < elapsed now_ms (current r).started
      → let r' = (service r n s now_ms).0 in
        IsSound r'
        × (r.index < r'.index)
        × (((r'.active ≡ true) × ((current r').started ≡ now_ms))
            ⊎ ((r'.active ≡ false) × (r'.report_ready ≡ true) × (r'.index ≡ 3)))
  unfolding service
  service-late r n s now_ms v a h =
      let item = current r in
      let taken = elapsed now_ms item.started in
      let late : TestItem = record item { result = fail; elapsed_ms = taken; detail = timed_out } in
      let w = under_way r v a in
      let Later = λ (q : SelfTestRunner × BikeNode S). GoesOn (close_item r late) q.0 now_ms in
      let goes =
        if-not Later (not r.active || leb (length r.items) r.index) (r, n) _
          (ground (arith, a, v.three, w.2))
          (if-not Later (leb taken 1000) (r, n) _ (ground (arith, h))
            (close_item-GoesOn r late n s now_ms v.three w refl)) in
      (
        GoesOn-IsSound (close_item r late) _ now_ms goes,
        omega (arith, goes.1),
        elim (goes.2) [ inl asks ↦ inl (asks.0, asks.3) | inr done ↦ inr done ],
      )

  service-still :
      (r : SelfTestRunner) (n : BikeNode S) (s : NetworkSupervisor) (now_ms : ℕ)
      → r.active ≡ false
      → service r n s now_ms ≡ (r, n)
  unfolding service
  service-still r n s now_ms a = ground (arith, a)

  -- After the report nothing more is done.
  serve_all-still :
      (r : SelfTestRunner) (visits : List (Visit S)) → r.active ≡ false → serve_all r visits ≡ r
  unfolding serve_all
  serve_all-still r [] a = refl
  serve_all-still r (v ∷ visits) a =
      ap (λ (q : SelfTestRunner × BikeNode S). serve_all q.0 visits)
        (service-still r v.node v.supervisor v.now_ms a)
      ∙ serve_all-still r visits a

  serve_all-reported :
      (r : SelfTestRunner) (visits : List (Visit S))
      → IsSound r
      → r.active ≡ true
      → AreLate (current r).started visits
      → 3 ≤ r.index + length visits
      → let r' = serve_all r visits in (r'.active ≡ false) × (r'.report_ready ≡ true)
  unfolding serve_all
  serve_all-reported r [] v a l le = absurd (omega (arith, le, (under_way r v a).2))
  serve_all-reported r (c ∷ visits) v a l le =
      let r' = (service r c.node c.supervisor c.now_ms).0 in
      let goes = service-late r c.node c.supervisor c.now_ms v a l.0 in
      elim (goes.2) [
        | inl (a', e) ↦
            serve_all-reported r' visits goes.0 a' (rw e l.1) (omega (arith, le, goes.1))
        | inr (a', e, _) ↦ rw (serve_all-still r' visits a') (a', e)
      ]

  -- A runner that is active, however it was used before, has a report and is no more active after
  -- three calls of `service` or more, the first of them more than 1000 ms after the current item was asked and
  -- each other more than 1000 ms after the one before, whatever its node and its supervisor are in each call.
  pub serve_all-ends :
      (r : SelfTestRunner) (visits : List (Visit S))
      → Reach S r
      → r.active ≡ true
      → AreLate (current r).started visits
      → 3 ≤ length visits
      → let r' = serve_all r visits in (r'.active ≡ false) × (r'.report_ready ≡ true)
  serve_all-ends r visits h a l le =
      serve_all-reported r visits (Reach-IsSound S h) a l (omega (arith, le))
