-- ===== src/Lighting/LocalControl/Asked.antt =====
-- What the switches ask for, said without the code: the switches as they count after a round, the
-- phase in which a blinking lamp is, and the lamps.
use motorcycle_computer.Base.{
  ℕ, ◌<◌, ◌≡◌, refl, arith, Bool, true, not, ◌&&◌, ◌||◌, leb, elapsed, if◌then◌else◌,
}
use motorcycle_computer.Lighting.Server.{LightingState}
use motorcycle_computer.Lighting.LocalControl.{
  LightingInputs, LightingLocalControl, update, local_indicator_active, blink, sample_inputs,
  effective,
}

-- How the five switches read.
pub record Readings : Type 0 where
  pub left : Bool
  pub right : Bool
  pub front_brake : Bool
  pub rear_brake : Bool
  pub high : Bool

abbrev pub readings : {I : Type 0} → LightingInputs I → I → Readings
readings i inputs = record {
  left = i.left_indicator_requested inputs;
  right = i.right_indicator_requested inputs;
  front_brake = i.front_brake_active inputs;
  rear_brake = i.rear_brake_active inputs;
  high = i.high_beam_requested inputs;
}

-- Each switch is debounced on its own, with the same time, and no setting changes.
abbrev pub AreSampled : LightingLocalControl → Readings → ℕ → LightingLocalControl → Type 0
AreSampled c r now_ms c' =
    (c'.left ≡ (update c.left r.left now_ms c.input_debounce_ms).1)
    × (c'.right ≡ (update c.right r.right now_ms c.input_debounce_ms).1)
    × (c'.front_brake ≡ (update c.front_brake r.front_brake now_ms c.input_debounce_ms).1)
    × (c'.rear_brake ≡ (update c.rear_brake r.rear_brake now_ms c.input_debounce_ms).1)
    × (c'.high ≡ (update c.high r.high now_ms c.input_debounce_ms).1)
    × (c'.input_debounce_ms ≡ c.input_debounce_ms)
    × (c'.blink_half_period_ms ≡ c.blink_half_period_ms)

pub AreSampled-readings :
    (c c' : LightingLocalControl) (r r' : Readings) (now_ms : ℕ)
    → r ≡ r'
    → AreSampled c r now_ms c'
    → AreSampled c r' now_ms c'
AreSampled-readings c c' r r' now_ms e h = rw (← e) h

-- One of the indicators counts as switched on.
abbrev pub is_indicating : LightingLocalControl → Bool
is_indicating c = c.left.stable || c.right.stable

-- While an indicator stays on, the phase changes once half a period has gone since it changed last;
-- otherwise it is the phase in which a lamp is on, from now on.
abbrev pub IsBlinking : LightingLocalControl → ℕ → LightingLocalControl → Type 0
IsBlinking c now_ms c' =
    let stays = is_indicating c && is_indicating c' in
    let due = leb c.blink_half_period_ms (elapsed now_ms c.last_blink_toggle_ms) in
    (c'.blink_on ≡ (if stays then (if due then not c.blink_on else c.blink_on) else true))
    × (c'.last_blink_toggle_ms ≡ (if stays && not due then c.last_blink_toggle_ms else now_ms))

-- An indicator follows its own switch and else the command; the brake light is on with either brake
-- or the command, and the high beam with its switch or the command.
abbrev pub AreAsked : LightingLocalControl → LightingState → LightingState → Type 0
AreAsked c commanded lamps =
    (lamps.left ≡ (if c.left.stable then c.blink_on else commanded.left))
    × (lamps.right ≡ (if c.right.stable then c.blink_on else commanded.right))
    × (lamps.brake ≡ (c.front_brake.stable || (c.rear_brake.stable || commanded.brake)))
    × (lamps.high ≡ (c.high.stable || commanded.high))

-- The control remembers whether an indicator was on, and has a time for its phases.
abbrev pub IsReady : LightingLocalControl → Type 0
IsReady c =
    ((c.initialized && c.indicator_active_previous) ≡ is_indicating c)
    × (0 < c.blink_half_period_ms)

pub blink-IsBlinking :
    {I : Type 0} ⦃i : LightingInputs I⦄ (c : LightingLocalControl) (inputs : I) (now_ms : ℕ)
    → IsReady c
    → let c' = blink (sample_inputs c inputs now_ms) now_ms in
      AreSampled c (readings i inputs) now_ms c' × IsBlinking c now_ms c' × IsReady c'
unfolding blink sample_inputs local_indicator_active
blink-IsBlinking c inputs now_ms h =
    ((refl, refl, refl, refl, refl, refl, refl), ground (arith, h), ground (arith, h))

pub effective-AreAsked :
    (c : LightingLocalControl) (commanded : LightingState)
    → AreAsked c commanded (effective c commanded)
unfolding effective
effective-AreAsked c commanded = (refl, refl, ground arith, refl)
