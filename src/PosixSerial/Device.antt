-- ===== src/PosixSerial/Device.antt =====
-- What `open_device` and `close_device` leave open.
use Prim.Native.String.{String}
use motorcycle_computer.Base.{
  ℕ, ◌≡◌, arith, Bool, false, not, ◌&&◌, ◌||◌, ◌==◌, Option, Option-cases, none, some, inl, inr,
}
use motorcycle_computer.PosixSerial.{
  Posix, Terminal, Termios, PosixSerialTransport, is_open, baud_to_termios, configure, close_device,
  set_up_device, open_device,
}

-- Which descriptors are open: `open` that succeeds gives one that was not, and otherwise opens none;
-- `close` closes its descriptor and no other; and the calls for a terminal leave all as they are.
pub record IsTable (T : Type 0) {W : Type 0} ⦃term : Terminal T W⦄ (os : Posix W)
    (opens : W → ℕ → Bool) : Type 0 where
  pub opened :
      (s : W) (path : String) (fd k : ℕ)
      → (os.open_path s path).0 ≡ some fd
      → (opens s fd ≡ false) × (opens (os.open_path s path).1 k ≡ (opens s k || fd == k))
  pub refused :
      (s : W) (path : String) (k : ℕ)
      → (os.open_path s path).0 ≡ none
      → opens (os.open_path s path).1 k ≡ opens s k
  pub closed : (s : W) (fd k : ℕ) → opens (os.close s fd) k ≡ (opens s k && not (fd == k))
  pub configured : (s : W) (fd k : ℕ) (tty : T) → opens (term.tcsetattr s fd tty).1 k ≡ opens s k
  pub flushed : (s : W) (fd k : ℕ) → opens (term.tcflush s fd) k ≡ opens s k

-- The descriptor is the transport's.
abbrev pub owns : Option ℕ → ℕ → Bool
owns none k = false
owns (some fd) k = fd == k

module _ {W : Type 0} where
  -- The open descriptors are those of others and the transport's, which is none of the others.
  abbrev pub IsBalanced : (W → ℕ → Bool) → (ℕ → Bool) → PosixSerialTransport W → Type 0
  IsBalanced opens others t =
      (k : ℕ) → (opens t.system k ≡ (others k || owns t.fd k)) × ((others k && owns t.fd k) ≡ false)

module _ (T : Type 0) {W : Type 0} ⦃tm : Termios T⦄ ⦃term : Terminal T W⦄ ⦃os : Posix W⦄
    (opens : W → ℕ → Bool) where
  close_device-IsBalanced :
      (t : PosixSerialTransport W) (others : ℕ → Bool)
      → IsTable T os opens
      → IsBalanced opens others t
      → IsBalanced opens others (close_device t) × (is_open (close_device t) ≡ false)
  unfolding close_device
  close_device-IsBalanced t others c h = elim (Option-cases (t.fd)) [
    | inl n ↦ (λ k. ground (arith, n, h k), ground (arith, n))
    | inr (fd, e) ↦ (λ k. ground (arith, e, h k, c.closed t.system fd k), ground (arith, e))
  ]

  set_up_device-IsBalanced :
      (system : W) (fd speed : ℕ) (others : ℕ → Bool)
      → IsTable T os opens
      → ((k : ℕ) → (opens system k ≡ (others k || fd == k)) × ((others k && fd == k) ≡ false))
      → let (done, t) = set_up_device T system fd speed in
        IsBalanced opens others t × (done ≡ is_open t)
  unfolding set_up_device close_device
  set_up_device-IsBalanced system fd speed others c h =
      let (got, tty) = term.tcgetattr system fd tm.blank in
      let changed = (term.tcsetattr system fd (configure tty speed)).1 in
      (
        λ k. ground (
          arith,
          h k,
          c.closed system fd k,
          c.closed changed fd k,
          c.configured system fd k (configure tty speed),
          c.flushed changed fd k,
        ),
        ground arith,
      )

  -- Over calls by which `open` gives a descriptor that is not open and `close` closes its own,
  -- `open_device` returns true exactly when the transport is open afterwards, for every path, speed
  -- and answer of the system; and the descriptors that are open are then those that others had open
  -- and, when it is open, that of the transport: what it had open before is closed, and none that it
  -- opened stays open without it.
  pub open_device-IsBalanced :
      (t : PosixSerialTransport W) (path : String) (baud : ℕ) (others : ℕ → Bool)
      → IsTable T os opens
      → IsBalanced opens others t
      → let (done, t') = open_device T t path baud in
        IsBalanced opens others t' × (done ≡ is_open t')
  unfolding open_device
  open_device-IsBalanced t path baud others c h =
      let closed = close_device t in
      let balanced = close_device-IsBalanced t others c h in
      let shut : closed.fd ≡ none = ground (arith, balanced.1) in
      elim (Option-cases (baud_to_termios baud)) [
        | inl n ↦ ground (arith, n, balanced)
        | inr (speed, q) ↦
            let system = (os.open_path closed.system path).1 in
            elim (Option-cases ((os.open_path closed.system path).0)) [
              | inl n ↦
                  rw (open_device, q, n)
                    (
                      λ k. ground (arith, shut, balanced.0 k, c.refused closed.system path k n),
                      ground (arith, shut),
                    )
              | inr (fd, e) ↦
                  rw (open_device, q, e)
                    (set_up_device-IsBalanced system fd speed others c (λ k. ground (
                      arith,
                      shut,
                      balanced.0 k,
                      balanced.0 fd,
                      c.opened closed.system path fd k e,
                    )))
            ]
      ]
