-- ===== src/Arduino/Tests.antt =====
-- A serial port and pins in memory, and the theorems on the serial transport at concrete ports.
use motorcycle_computer.Base.{
  ℕ, ◌<◌, ◌≡◌, ◌≢◌, refl, arith, Bool, false, List, [], ◌∷◌, ◌++◌, map, drop, length, All, u8, ◌==◌,
  if◌then◌else◌,
}
use motorcycle_computer.Arduino.{HardwareSerial, Board, ArduinoSerialTransport, receive}
use motorcycle_computer.Arduino.Pins.{IsDriving}
use motorcycle_computer.Arduino.Fifo.{head, IsFifo, exchange}

pub record Port : Type 0 where
  pub rx : List ℕ
  pub writes : List (List ℕ)

-- The bytes that came in, as numbers below 256.
abbrev pub held : Port → List ℕ
held p = map u8 p.rx

instance abbrev pub port : HardwareSerial Port
port = record {
  begin = λ p baud rx_pin tx_pin. p;
  write = λ p frame. (length frame, record p { writes = p.writes ++ frame ∷ [] });
  available = λ p. length (held p);
  available_for_write = λ p. 256;
  read = λ p. (head (held p), record p { rx = drop 1 p.rx });
}

u8-are_bytes : (xs : List ℕ) → All (λ b. b < 256) (map u8 xs)
u8-are_bytes [] = tt
u8-are_bytes (x ∷ xs) = (omega arith, u8-are_bytes xs)

map-drop_one : (xs : List ℕ) → map u8 (drop 1 xs) ≡ drop 1 (map u8 xs)
map-drop_one [] = refl
map-drop_one (x ∷ xs) = refl

pub port-IsFifo : IsFifo port held
port-IsFifo = record {
  are_bytes = λ s. u8-are_bytes s.rx;
  available_held = λ s. refl;
  read_held = λ s. (refl, map-drop_one s.rx);
  write_held = λ s frame. refl;
}

-- The levels that were written, newest first.
abbrev pub level : List (ℕ × Bool) → ℕ → Bool
level [] pin = false
level (w ∷ written) pin = if w.0 == pin then w.1 else level written pin

instance abbrev pub pins : Board (List (ℕ × Bool))
pins = record {
  digital_write = λ written pin high. (pin, high) ∷ written;
  digital_read = level;
  pin_mode = λ written pin mode. written;
}

level-unwritten :
    (written : List (ℕ × Bool)) (pin other : ℕ) (high : Bool)
    → pin ≢ other
    → level ((pin, high) ∷ written) other ≡ level written other
level-unwritten written pin other high e = ground (arith, e)

level-written :
    (written : List (ℕ × Bool)) (pin : ℕ) (high : Bool) → level ((pin, high) ∷ written) pin ≡ high
level-written written pin high = ground arith

pub pins-IsDriving : IsDriving pins level
pins-IsDriving = record {
  written = λ board pin high. level-written board pin high;
  unwritten = λ board pin other high e. level-unwritten board pin other high e;
  unmoded = λ board pin other mode e. refl;
  unread = λ board pin other high e. level-unwritten board pin other high e;
}

abbrev cable : ArduinoSerialTransport Port
cable = record { serial = record { rx = 10 ∷ 20 ∷ 30 ∷ []; writes = [] } }

-- Two of the three bytes are read, then the last.
exchange-cable : (exchange cable ((2, 7 ∷ []) ∷ (2, 8 ∷ 9 ∷ []) ∷ [])).0 ≡ 10 ∷ 20 ∷ 30 ∷ []
unfolding exchange receive
exchange-cable = refl
