-- ===== src/Transport.antt =====
-- library/include/bike/transport.hpp: the abstract class `Transport`, as the operations on a state
-- that an implementation has. The boards implement it over serial ports.
use motorcycle_computer.Base.{ℕ, ◌≤◌, ◌≡◌, Bool, true, List, length}

pub record Transport (S : Type 0) : Type 0 where
  -- Takes the bytes of a frame, and says whether it sent them.
  pub write : S → List ℕ → Bool × S
  -- The bytes that have arrived, at most as many as the capacity.
  pub read : S → ℕ → List ℕ × S

-- What the comments and the callers ask of `read`: it stays within the caller's array.
pub record IsBounded {S : Type 0} (t : Transport S) : Type 0 where
  pub read_le : (s : S) (capacity : ℕ) → length (t.read s capacity).0 ≤ capacity

-- A transport that sends every frame.
pub record IsReliable {S : Type 0} (t : Transport S) : Type 0 where
  pub write_true : (s : S) (frame : List ℕ) → (t.write s frame).0 ≡ true
