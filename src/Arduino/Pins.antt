-- ===== src/Arduino/Pins.antt =====
-- What the boards rely on of the pins of the Arduino core.
use motorcycle_computer.Base.{ℕ, ◌≡◌, ◌≢◌, Bool}
use motorcycle_computer.Arduino.{Board, PinMode}

-- The levels that a board puts on its pins: a write sets that of its pin, and neither a write nor a
-- mode changes those of other pins, and a write leaves the readings of other pins.
pub record IsDriving {B : Type 0} (b : Board B) (level : B → ℕ → Bool) : Type 0 where
  pub written :
      (board : B) (pin : ℕ) (high : Bool) → level (b.digital_write board pin high) pin ≡ high
  pub unwritten :
      (board : B) (pin other : ℕ) (high : Bool)
      → pin ≢ other
      → level (b.digital_write board pin high) other ≡ level board other
  pub unmoded :
      (board : B) (pin other : ℕ) (mode : PinMode)
      → pin ≢ other
      → level (b.pin_mode board pin mode) other ≡ level board other
  pub unread :
      (board : B) (pin other : ℕ) (high : Bool)
      → pin ≢ other
      → b.digital_read (b.digital_write board pin high) other ≡ b.digital_read board other
