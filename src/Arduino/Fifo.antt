-- ===== src/Arduino/Fifo.antt =====
-- The serial transport of the boards, over a port that keeps its bytes in order.
use motorcycle_computer.Base.{
  ℕ, zero, suc, ◌≤◌, ◌<◌, ◌≡◌, refl, ap, arith, append_assoc, take-append-drop, Option, none, some,
  List, [], ◌∷◌, ◌++◌, length, take, drop, All, length-drop-take,
}
use motorcycle_computer.Transport.{IsBounded}
use motorcycle_computer.Node.Drain.{IsClosed}
use motorcycle_computer.Arduino.{HardwareSerial, ArduinoSerialTransport, receive, serial_transport}

-- The first element.
abbrev pub head : List ℕ → Option ℕ
head [] = none
head (x ∷ xs) = some x

-- A serial port holds the bytes that have come in: it tells how many there are, gives them in order, and
-- writing leaves them alone.
pub record IsFifo {P : Type 0} (hs : HardwareSerial P) (held : P → List ℕ) : Type 0 where
  pub are_bytes : (s : P) → All (λ b. b < 256) (held s)
  pub available_held : (s : P) → hs.available s ≡ length (held s)
  pub read_held : (s : P) → ((hs.read s).0 ≡ head (held s)) × (held (hs.read s).1 ≡ drop 1 (held s))
  pub write_held : (s : P) (frame : List ℕ) → held (hs.write s frame).1 ≡ held s

-- The bytes that the port of a transport holds.
abbrev pub unread : {P : Type 0} → (P → List ℕ) → ArduinoSerialTransport P → ℕ
unread held t = length (held t.serial)

module _ {P : Type 0} ⦃hs : HardwareSerial P⦄ where
  receive-le : (room : ℕ) (s : P) → length (receive room s).0 ≤ room
  unfolding receive
  receive-le zero s = omega arith
  receive-le (suc room) s = ground (arith, receive-le room (hs.read s).1)

  -- Whatever the port does, the transport stays within the caller's array.
  pub serial_transport-IsBounded : IsBounded (serial_transport ⦃hs = hs⦄)
  serial_transport-IsBounded = record { read_le = λ s capacity. receive-le capacity s.serial }

module _ {P : Type 0} ⦃hs : HardwareSerial P⦄ (held : P → List ℕ) (f : IsFifo hs held) where
  -- With the bytes that the port holds named.
  receive-held :
      (room : ℕ) (s : P) (bytes : List ℕ)
      → held s ≡ bytes
      → ((receive room s).0 ≡ take room bytes) × (held (receive room s).1 ≡ drop room bytes)
  unfolding receive
  receive-held zero s bytes e = (refl, e)
  receive-held (suc room) s [] e = ground (arith, e, f.available_held s)
  receive-held (suc room) s (byte ∷ bytes) e = ground (
    arith,
    e,
    f.are_bytes s,
    f.available_held s,
    f.read_held s,
    receive-held room (hs.read s).1 bytes,
  )

  -- The transport gives the bytes that the port holds, in order and as many as the caller has room
  -- for; the others stay, and a write leaves them alone.
  pub read-held :
      (s : ArduinoSerialTransport P) (capacity : ℕ) (frame : List ℕ)
      → let t = serial_transport ⦃hs = hs⦄ in
        ((t.read s capacity).0 ≡ take capacity (held s.serial))
        × (held (t.read s capacity).1.serial ≡ drop capacity (held s.serial))
        × (held (t.write s frame).1.serial ≡ held s.serial)
  read-held s capacity frame =
      let got = receive-held capacity s.serial (held s.serial) refl in
      (got.0, got.1, f.write_held s.serial frame)

  -- Bytes leave the port only by being read.
  pub serial_transport-IsClosed : IsClosed (serial_transport ⦃hs = hs⦄) (unread held)
  serial_transport-IsClosed = record {
    read_left = λ s capacity.
        ground (arith, read-held s capacity [], length-drop-take capacity (held s.serial));
    write_left = λ s frame. omega (arith, ap length (read-held s 0 frame).2);
  }

module _ {P : Type 0} ⦃hs : HardwareSerial P⦄ where
  -- Reads with room for so many bytes, each followed by a write.
  unfoldable pub exchange :
      ArduinoSerialTransport P → List (ℕ × List ℕ) → List ℕ × ArduinoSerialTransport P
  exchange s [] = ([], s)
  exchange s (round ∷ rounds) =
      let t = serial_transport ⦃hs = hs⦄ in
      let (bytes, s₁) = t.read s round.0 in
      let (later, s₂) = exchange (t.write s₁ round.1).1 rounds in (bytes ++ later, s₂)

module _ {P : Type 0} ⦃hs : HardwareSerial P⦄ where
  -- Over a serial port that holds the bytes that have come in, gives them in order and keeps them
  -- when it is written to, reads of any sizes with writes in between give these bytes in order,
  -- none lost, changed or given twice: those that were read, followed by those that the port still
  -- holds, are those that it held.
  pub exchange-fifo :
      (held : P → List ℕ) (s : ArduinoSerialTransport P) (rounds : List (ℕ × List ℕ))
      → IsFifo hs held
      → (exchange s rounds).0 ++ held (exchange s rounds).1.serial ≡ held s.serial
  unfolding exchange
  exchange-fifo held s [] f = refl
  exchange-fifo held s (round ∷ rounds) f =
      let t = serial_transport ⦃hs = hs⦄ in
      let s₁ = (t.read s round.0).1 in
      let s₂ = (t.write s₁ round.1).1 in
      ground (
        arith,
        read-held held f s round.0 round.1,
        read-held held f s₁ 0 round.1,
        exchange-fifo held s₂ rounds f,
        append_assoc (t.read s round.0).0 (exchange s₂ rounds).0
            (held (exchange s₂ rounds).1.serial),
        take-append-drop round.0 (held s.serial),
      )
