-- ===== src/PosixSerial/Tests.antt =====
-- A system in memory, whose device takes up to four bytes at a time, and the theorems at concrete
-- transports.
use motorcycle_computer.Base.{
  ℕ, zero, suc, ◌≤◌, Bool, not, ◌&&◌, ◌||◌, ◌==◌, ltb, if◌then◌else◌, ◌≡◌, refl, ap, arith, true,
  false, none, some, List, [], ◌∷◌, ◌++◌, append-nil, length, take,
}
use motorcycle_computer.Node.Drain.{Ended}
use motorcycle_computer.PosixSerial.{
  Posix, Terminal, Termios, PosixSerialTransport, wrote, would_block, write_device, open_device,
}
use motorcycle_computer.PosixSerial.Write.{
  IsAppending, IsPatient, IsSentBy, write_device-ends, write_device-stuck,
}
use motorcycle_computer.PosixSerial.Device.{owns, IsTable, open_device-IsBalanced}

record System : Type 0 where
  sent : List ℕ
  delays : ℕ
  descriptors : ℕ → Bool

instance abbrev system : Posix System
system = record {
  open_path = λ s path.
      if s.descriptors 3
      then (none, s)
      else (some 3, record s { descriptors = λ k. s.descriptors k || 3 == k });
  close = λ s fd. record s { descriptors = λ k. s.descriptors k && not (fd == k) };
  write = λ s fd bytes. elim (s.delays) [
    | zero ↦ (wrote (length (take 4 bytes)), record s { sent = s.sent ++ take 4 bytes })
    | suc left ↦ (would_block, record s { delays = left })
  ];
  read = λ s fd capacity. (none, s);
}

-- The settings are left as they are; the second call of three fails.
instance abbrev settings : Termios Unit
settings = record {
  blank = tt;
  cfmakeraw = λ tty. tty;
  cfsetispeed = λ tty speed. tty;
  cfsetospeed = λ tty speed. tty;
  set_flag = λ tty flag on. tty;
  set_character_size = λ tty. tty;
  set_character = λ tty which value. tty;
}

instance abbrev terminal : Terminal Unit System
terminal = record {
  tcgetattr = λ s fd tty. (true, tty);
  tcsetattr = λ s fd tty. (false, s);
  tcflush = λ s fd. s;
}

take-length-take : (n : ℕ) (xs : List ℕ) → take (length (take n xs)) xs ≡ take n xs
take-length-take zero xs = refl
take-length-take (suc n) [] = refl
take-length-take (suc n) (x ∷ xs) = ap (λ t. x ∷ t) (take-length-take n xs)

length-take-all : (n : ℕ) (xs : List ℕ) → length (take n xs) ≤ length xs
length-take-all zero xs = omega arith
length-take-all (suc n) [] = omega arith
length-take-all (suc n) (x ∷ xs) = omega (arith, length-take-all n xs)

system-IsAppending : IsAppending system 3 (λ (s : System). s.sent)
system-IsAppending = record {
  count_le = λ s bytes. ground (arith, length-take-all 4 bytes);
  sent_write = λ s bytes. ground (arith, take-length-take 4 bytes, append-nil s.sent);
}

system-IsPatient : IsPatient system 3 (λ (s : System). s.delays)
system-IsPatient = record { delays_write = λ s bytes. ground arith }

-- Those of the program's standard streams, and the transport's.
abbrev standard : ℕ → Bool
standard k = ltb k 3

abbrev busy : ℕ → Bool
busy k = standard k || 3 == k

abbrev opened : PosixSerialTransport System
opened = record { system = record { sent = []; delays = 2; descriptors = busy }; fd = some 3 }

-- Six bytes, after two delays.
write_device-opened :
    write_device 9 opened (1 ∷ 2 ∷ 3 ∷ 4 ∷ 5 ∷ 6 ∷ [])
    ≡ some (
      true,
      record {
        system = record { sent = 1 ∷ 2 ∷ 3 ∷ 4 ∷ 5 ∷ 6 ∷ []; delays = 0; descriptors = busy };
        fd = some 3;
      },
    )
unfolding write_device
write_device-opened = refl

write_device-ends_example :
    Ended
      (IsSentBy 3 (λ (s : System). s.sent) opened (1 ∷ 2 ∷ 3 ∷ 4 ∷ 5 ∷ 6 ∷ []))
      (write_device 8 opened (1 ∷ 2 ∷ 3 ∷ 4 ∷ 5 ∷ 6 ∷ []))
write_device-ends_example =
    write_device-ends 3 (λ (s : System). s.sent) opened (1 ∷ 2 ∷ 3 ∷ 4 ∷ 5 ∷ 6 ∷ []) 8
      (λ (s : System). s.delays) refl system-IsAppending system-IsPatient (omega arith)

-- A device that never has room.
abbrev full : Posix System
full = record {
  open_path = λ s path. (some 3, s);
  close = λ s fd. s;
  write = λ s fd bytes. (would_block, s);
  read = λ s fd capacity. (none, s);
}

write_device-stuck_example : write_device ⦃os = full⦄ 1000 opened (1 ∷ []) ≡ none
write_device-stuck_example = write_device-stuck ⦃os = full⦄ 3 opened 1 [] 1000 refl (λ s rest. refl)

system-IsTable : IsTable Unit system (λ (s : System). s.descriptors)
system-IsTable = record {
  opened = λ s path fd k e. ground (arith, e);
  refused = λ s path k e. ground (arith, e);
  closed = λ s fd k. refl;
  configured = λ s fd k tty. refl;
  flushed = λ s fd k. refl;
}

-- The settings are refused: the old and the new descriptor are closed.
open_device-IsBalanced_example :
    let t = (open_device Unit opened "/dev/serial0" 115200).1 in
    t.system.descriptors 3 ≡ owns t.fd 3
open_device-IsBalanced_example =
    ((open_device-IsBalanced Unit (λ (s : System). s.descriptors) opened "/dev/serial0" 115200
        standard system-IsTable (λ k. (refl, ground arith))).0
      3).0
