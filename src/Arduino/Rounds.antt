-- ===== src/Arduino/Rounds.antt =====
-- What the Arduino core does after `setup`: it calls `loop` over and over. Between the calls bytes
-- come in, the levels of the input pins change, and the clock goes on.
use motorcycle_computer.Base.{ℕ, Option, none, some, List, [], ◌∷◌, All, All-always}
use motorcycle_computer.Node.Drain.{Ended}

-- What happens before a call of `loop`, and the time that `millis` gives in it.
pub record Round (P B : Type 0) : Type 0 where
  pub arrive : P → P
  pub change : B → B
  pub now_ms : ℕ

module _ {X Y : Type 0} where
  -- A step that follows one that may not have ended.
  abbrev pub followed_by : Option X → (X → Option Y) → Option Y
  followed_by none next = none
  followed_by (some x) next = next x

  pub followed_by-Ended :
      (P : X → Type 0) (Q : Y → Type 0) (o : Option X) (next : X → Option Y)
      → ((x : X) → P x → Ended Q (next x))
      → Ended P o
      → Ended Q (followed_by o next)
  followed_by-Ended P Q none next h e = e
  followed_by-Ended P Q (some x) next h e = h x e

module _ {X R : Type 0} (round : X → R → Option X) where
  unfoldable pub run : X → List R → Option X
  run x [] = some x
  run x (r ∷ rounds) = followed_by (round x r) (λ y. run y rounds)

module _ {X R : Type 0} (round : X → R → Option X) where
  -- Rounds that end and keep an invariant can go on for ever.
  pub run-Ended :
      (P : X → Type 0) (M : R → Type 0) (x : X) (rounds : List R)
      → ((y : X) (r : R) → M r → P y → Ended P (round y r))
      → All M rounds
      → P x
      → Ended P (run round x rounds)
  unfolding run
  run-Ended P M x [] h m p = p
  run-Ended P M x (r ∷ rounds) h m p =
      followed_by-Ended P P (round x r) (λ y. run round y rounds)
        (λ y q. run-Ended P M y rounds h m.1 q) (h x r m.0 p)

  -- The same for rounds of which nothing is asked.
  pub run-Ended_always :
      (P : X → Type 0) (x : X) (rounds : List R)
      → ((y : X) (r : R) → P y → Ended P (round y r))
      → P x
      → Ended P (run round x rounds)
  run-Ended_always P x rounds h p =
      run-Ended P (λ _. Unit) x rounds (λ y r _ q. h y r q)
        (All-always (λ _. Unit) rounds (λ _. tt)) p
