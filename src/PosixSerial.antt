-- ===== src/PosixSerial.antt =====
-- raspberry-pi/main-computer/include/posix_serial_transport.hpp and
-- raspberry-pi/main-computer/src/posix_serial_transport.cpp: the serial port of the two computers.
-- The calls of the operating system are parameters.
pub mod Write
pub mod Device
pub mod Tests
use Prim.Native.String.{String}
use motorcycle_computer.Base.{
  ℕ, zero, suc, Bool, true, false, Option, none, some, List, [], ◌∷◌, drop, ◌==◌, if◌then◌else◌,
}

-- What `write` answers: a number of bytes, EAGAIN or EWOULDBLOCK, EINTR, or another error.
pub data Written : Type 0 where
  wrote : ℕ → Written
  would_block interrupted failed : Written

-- The bits of `c_cflag` that the code sets and clears, and the two elements of `c_cc`.
pub data ControlFlag : Type 0 where
  clocal cread cstopb crtscts parenb : ControlFlag

pub data ControlCharacter : Type 0 where
  vmin vtime : ControlCharacter

-- `termios` and what changes it; `set_character_size` writes `CS8` into the bits of `CSIZE`.
pub record Termios (T : Type 0) : Type 0 where
  pub blank : T
  pub cfmakeraw : T → T
  pub cfsetispeed : T → ℕ → T
  pub cfsetospeed : T → ℕ → T
  pub set_flag : T → ControlFlag → Bool → T
  pub set_character_size : T → T
  pub set_character : T → ControlCharacter → ℕ → T

-- The system calls, on the state of the system. `open`, here `open_path`, gives `none` for a negative descriptor, and
-- `read` for a negative answer; the others say whether they gave 0.
pub record Posix (W : Type 0) : Type 0 where
  pub open_path : W → String → Option ℕ × W
  pub close : W → ℕ → W
  pub write : W → ℕ → List ℕ → Written × W
  pub read : W → ℕ → ℕ → Option (List ℕ) × W

-- The calls for a terminal.
pub record Terminal (T W : Type 0) : Type 0 where
  pub tcgetattr : W → ℕ → T → Bool × T
  pub tcsetattr : W → ℕ → T → Bool × W
  pub tcflush : W → ℕ → W

-- `fd` is `none` for -1. The state of the system goes with it.
pub record PosixSerialTransport (W : Type 0) : Type 0 where
  pub system : W
  pub fd : Option ℕ

-- `is_open`.
abbrev pub is_open : {W : Type 0} → PosixSerialTransport W → Bool
is_open t = elim (t.fd) [ none ↦ false | some fd ↦ true ]

-- `baud_to_termios`, with the constant `B9600` and so on as the number in its name, and `none` for
-- 0. `B230400` is there.
abbrev pub baud_to_termios : ℕ → Option ℕ
baud_to_termios baud =
    if baud == 9600
    then some 9600
    else if baud == 19200
    then some 19200
    else if baud == 38400
    then some 38400
    else if baud == 57600
    then some 57600
    else if baud == 115200
    then some 115200
    else if baud == 230400
    then some 230400
    else none

-- The settings of `open_device`: raw, the speed, and eight bits without parity, two stop bits or
-- flow control.
unfoldable pub configure : {T : Type 0} → ⦃tm : Termios T⦄ → T → ℕ → T
configure ⦃tm⦄ tty speed =
    let fast = tm.cfsetospeed (tm.cfsetispeed (tm.cfmakeraw tty) speed) speed in
    let local = tm.set_flag (tm.set_flag fast clocal true) cread true in
    let one_stop = tm.set_flag local cstopb false in
    let no_flow = tm.set_flag one_stop crtscts false in
    let no_parity = tm.set_flag no_flow parenb false in
    tm.set_character (tm.set_character (tm.set_character_size no_parity) vmin 0) vtime 0

module _ {W : Type 0} ⦃os : Posix W⦄ where
  unfoldable pub close_device : PosixSerialTransport W → PosixSerialTransport W
  close_device t = elim (t.fd) [
    | none ↦ t
    | some fd ↦ record { system = os.close t.system fd; fd = none }
  ]

module _ (T : Type 0) {W : Type 0} ⦃tm : Termios T⦄ ⦃term : Terminal T W⦄ ⦃os : Posix W⦄ where
  -- `open_device` from `tcgetattr` on.
  unfoldable pub set_up_device : W → ℕ → ℕ → Bool × PosixSerialTransport W
  set_up_device system fd speed =
      let opened : PosixSerialTransport W = record { system = system; fd = some fd } in
      let (got, tty) = term.tcgetattr system fd tm.blank in
      let (done, changed) = term.tcsetattr system fd (configure tty speed) in
      if got
      then (if done
          then (true, record { system = term.tcflush changed fd; fd = some fd })
          else (false, close_device (record { system = changed; fd = some fd })))
      else (false, close_device opened)

  unfoldable pub open_device : PosixSerialTransport W → String → ℕ → Bool × PosixSerialTransport W
  unfolding close_device set_up_device
  open_device t path baud =
      let closed = close_device t in
      elim (baud_to_termios baud) [
        | none ↦ (false, closed)
        | some speed ↦
            let (fd, system) = os.open_path closed.system path in
            elim fd [
              | none ↦ (false, record { system = system; fd = none })
              | some fd ↦ set_up_device system fd speed
            ]
      ]

module _ {W : Type 0} ⦃os : Posix W⦄ where
  -- The loop of `write` over the bytes left, with fuel: `none` where it runs out.
  unfoldable pub write_left : ℕ → W → ℕ → List ℕ → Option (Bool × W)
  write_left fuel system fd [] = some (true, system)
  write_left zero system fd (byte ∷ bytes) = none
  write_left (suc fuel) system fd (byte ∷ bytes) =
      let (written, after) = os.write system fd (byte ∷ bytes) in
      elim written [
        | wrote count ↦ elim count [
          | zero ↦ some (false, after)
          | suc more ↦ write_left fuel after fd (drop more bytes)
        ]
        | would_block ↦ write_left fuel after fd (byte ∷ bytes)
        | interrupted ↦ write_left fuel after fd (byte ∷ bytes)
        | failed ↦ some (false, after)
      ]

  -- `write`, for a pointer that is not null.
  unfoldable pub write_device :
      ℕ → PosixSerialTransport W → List ℕ → Option (Bool × PosixSerialTransport W)
  unfolding write_left
  write_device fuel t bytes = elim (t.fd) [
    | none ↦ some (false, t)
    | some fd ↦ elim (write_left fuel t.system fd bytes) [
      | none ↦ none
      | some (done, system) ↦ some (done, record t { system = system })
    ]
  ]

  -- `read`, for a pointer that is not null.
  unfoldable pub read_device : PosixSerialTransport W → ℕ → List ℕ × PosixSerialTransport W
  read_device t capacity = elim (t.fd) [
    | none ↦ ([], t)
    | some fd ↦
        let (got, system) = os.read t.system fd capacity in
        if capacity == 0 then ([], t) else elim got [
          | none ↦ ([], record t { system = system })
          | some bytes ↦ (bytes, record t { system = system })
        ]
  ]
