-- ===== src/PosixSerial/Write.antt =====
-- What `write` sends, and when it returns.
use motorcycle_computer.Base.{
  ℕ, zero, suc, ◌+◌, ◌≤◌, ◌≡◌, ◌↔◌, ◌∙◌, refl, sym, ap, arith, Bool, true, false, Option, none,
  some, List, [], ◌∷◌, ◌++◌, append_assoc, append-nil, length, take, drop, length-drop,
  take-append-take-drop,
}
use motorcycle_computer.Node.Drain.{Ended, Ended-map}
use motorcycle_computer.PosixSerial.{
  Posix, Written, wrote, would_block, interrupted, failed, PosixSerialTransport, write_left,
  write_device,
}

-- How many bytes an answer of `write` stands for.
abbrev pub count_of : Written → ℕ
count_of (wrote count) = count
count_of would_block = 0
count_of interrupted = 0
count_of failed = 0

-- A device takes the first of the bytes that it is given, as many as it says, and no others.
pub record IsAppending {W : Type 0} (os : Posix W) (fd : ℕ) (sent : W → List ℕ) : Type 0 where
  pub count_le : (s : W) (bytes : List ℕ) → count_of (os.write s fd bytes).0 ≤ length bytes
  pub sent_write :
      (s : W) (bytes : List ℕ)
      → sent (os.write s fd bytes).1 ≡ sent s ++ take (count_of (os.write s fd bytes).0) bytes

-- It has only so many delays left: answers that it would block, or was interrupted.
abbrev pub is_delay : Written → ℕ
is_delay would_block = 1
is_delay interrupted = 1
is_delay _ = 0

pub record IsPatient {W : Type 0} (os : Posix W) (fd : ℕ) (delays : W → ℕ) : Type 0 where
  pub delays_write :
      (s : W) (bytes : List ℕ)
      → delays (os.write s fd bytes).1 + is_delay (os.write s fd bytes).0 ≤ delays s

-- A first part of the bytes was sent, and it is all of them exactly when the answer is true.
abbrev pub IsSent : {W : Type 0} → (W → List ℕ) → W → List ℕ → Bool × W → Type 0
IsSent sent s bytes r =
    (k : ℕ) × (sent r.1 ≡ sent s ++ take k bytes)
    × (k ≤ length bytes)
    × ((r.0 ≡ true) ↔ (k ≡ length bytes))

module _ {W : Type 0} ⦃os : Posix W⦄ (fd : ℕ) (sent : W → List ℕ) (a : IsAppending os fd sent) where
  -- A first part that was taken, and the rest sent from there.
  IsSent-then :
      (s after : W) (bytes : List ℕ) (j : ℕ) (r : Bool × W)
      → sent after ≡ sent s ++ take j bytes
      → j ≤ length bytes
      → IsSent sent after (drop j bytes) r
      → IsSent sent s bytes r
  IsSent-then s after bytes j r e le (k, same, k_le, done) = (
    j + k,
    same
        ∙ (ap (λ t. t ++ take k (drop j bytes)) e
            ∙ (append_assoc (sent s) (take j bytes) (take k (drop j bytes))
                ∙ ap (λ t. sent s ++ t) (take-append-take-drop bytes j k (j + k) refl))),
    omega (arith, length-drop j bytes),
    ground (arith, done, k_le, length-drop j bytes),
  )

  module _ (delays : W → ℕ) (p : IsPatient os fd delays) where
    -- The loop goes on with the bytes that are left.
    write_left-next :
        (s : W) (bytes : List ℕ) (j : ℕ) (rest : Option (Bool × W))
        → count_of (os.write s fd bytes).0 ≡ j
        → Ended (IsSent sent (os.write s fd bytes).1 (drop j bytes)) rest
        → Ended (IsSent sent s bytes) rest
    write_left-next s bytes j rest e =
        let after = (os.write s fd bytes).1 in
        Ended-map (IsSent sent after (drop j bytes)) (IsSent sent s bytes) rest (λ r.
          IsSent-then s after bytes j r (a.sent_write s bytes ∙ ap (λ n. sent s ++ take n bytes) e)
            (omega (arith, a.count_le s bytes, e)))

    -- The loop ends without the bytes that are left.
    write_left-stop :
        (s : W) (byte : ℕ) (bytes : List ℕ)
        → count_of (os.write s fd (byte ∷ bytes)).0 ≡ 0
        → IsSent sent s (byte ∷ bytes) (false, (os.write s fd (byte ∷ bytes)).1)
    write_left-stop s byte bytes e = (
      0,
      a.sent_write s (byte ∷ bytes) ∙ ap (λ n. sent s ++ take n (byte ∷ bytes)) e,
      omega arith,
      ground arith,
    )

    -- One answer of the device.
    write_left-answer :
        (fuel : ℕ) (s : W) (byte : ℕ) (bytes : List ℕ) (w : Written)
        → (os.write s fd (byte ∷ bytes)).0 ≡ w
        → ((after : W) (rest : List ℕ)
            → length rest + delays after ≤ fuel
            → Ended (IsSent sent after rest) (write_left fuel after fd rest))
        → length (byte ∷ bytes) + delays s ≤ suc fuel
        → Ended (IsSent sent s (byte ∷ bytes)) (write_left (suc fuel) s fd (byte ∷ bytes))
    unfolding write_left
    write_left-answer fuel s byte bytes (wrote zero) e go h =
        rw (write_left, e) (write_left-stop s byte bytes (ap count_of e))
    write_left-answer fuel s byte bytes (wrote (suc more)) e go h =
        let after = (os.write s fd (byte ∷ bytes)).1 in
        rw (write_left, e)
          (write_left-next s (byte ∷ bytes) (suc more) (write_left fuel after fd (drop more bytes))
            (ap count_of e)
            (go after (drop more bytes) (
              omega (
                arith,
                h,
                p.delays_write s (byte ∷ bytes),
                ap is_delay e,
                length-drop more bytes,
                a.count_le s (byte ∷ bytes),
                ap count_of e,
              ))))
    write_left-answer fuel s byte bytes would_block e go h =
        let after = (os.write s fd (byte ∷ bytes)).1 in
        rw (write_left, e)
          (write_left-next s (byte ∷ bytes) 0 (write_left fuel after fd (byte ∷ bytes))
            (ap count_of e)
            (go after (byte ∷ bytes)
              (omega (arith, h, p.delays_write s (byte ∷ bytes), ap is_delay e))))
    write_left-answer fuel s byte bytes interrupted e go h =
        let after = (os.write s fd (byte ∷ bytes)).1 in
        rw (write_left, e)
          (write_left-next s (byte ∷ bytes) 0 (write_left fuel after fd (byte ∷ bytes))
            (ap count_of e)
            (go after (byte ∷ bytes)
              (omega (arith, h, p.delays_write s (byte ∷ bytes), ap is_delay e))))
    write_left-answer fuel s byte bytes failed e go h =
        rw (write_left, e) (write_left-stop s byte bytes (ap count_of e))

    write_left-ends :
        (fuel : ℕ) (s : W) (bytes : List ℕ)
        → length bytes + delays s ≤ fuel
        → Ended (IsSent sent s bytes) (write_left fuel s fd bytes)
    unfolding write_left
    write_left-ends fuel s [] h = (0, sym (append-nil (sent s)), omega arith, ground arith)
    write_left-ends zero s (byte ∷ bytes) h = absurd (omega arith)
    write_left-ends (suc fuel) s (byte ∷ bytes) h =
        write_left-answer fuel s byte bytes (os.write s fd (byte ∷ bytes)).0 refl
          (λ after rest. write_left-ends fuel after rest) h

module _ {W : Type 0} ⦃os : Posix W⦄ (fd : ℕ) (sent : W → List ℕ) where
  -- The same for the transport: it stays open, and what was sent.
  abbrev pub IsSentBy : PosixSerialTransport W → List ℕ → Bool × PosixSerialTransport W → Type 0
  IsSentBy t bytes r = (r.1.fd ≡ some fd) × IsSent sent t.system bytes (r.0, r.1.system)

  write_device-kept :
      (t : PosixSerialTransport W) (bytes : List ℕ) (o : Option (Bool × W))
      → t.fd ≡ some fd
      → Ended (IsSent sent t.system bytes) o
      → Ended
          (IsSentBy t bytes)
          (elim o [ none ↦ none | some (done, system) ↦ some (done, record t { system = system }) ])
  write_device-kept t bytes none e h = h
  write_device-kept t bytes (some r) e h = (e, h)

  -- Over a device that takes the first of the bytes that it is given, as many as it says, and that
  -- answers only so often that it would block or was interrupted, `write` on an open transport
  -- ends, with as much fuel as there are bytes and such answers left; it has then sent, in order and once, a
  -- first part of the bytes, which is all of them exactly when it returns true.
  pub write_device-ends :
      (t : PosixSerialTransport W) (bytes : List ℕ) (fuel : ℕ) (delays : W → ℕ)
      → t.fd ≡ some fd
      → IsAppending os fd sent
      → IsPatient os fd delays
      → length bytes + delays t.system ≤ fuel
      → Ended (IsSentBy t bytes) (write_device fuel t bytes)
  unfolding write_device
  write_device-ends t bytes fuel delays e a p h =
      rw (write_device, e)
        (write_device-kept t bytes (write_left fuel t.system fd bytes) e
          (write_left-ends fd sent a delays p fuel t.system bytes h))

module _ {W : Type 0} ⦃os : Posix W⦄ (fd : ℕ) where
  write_left-stuck :
      (fuel : ℕ) (s : W) (byte : ℕ) (bytes : List ℕ)
      → ((s : W) (rest : List ℕ) → (os.write s fd rest).0 ≡ would_block)
      → write_left fuel s fd (byte ∷ bytes) ≡ none
  unfolding write_left
  write_left-stuck zero s byte bytes stuck = refl
  write_left-stuck (suc fuel) s byte bytes stuck =
      rw (write_left, stuck s (byte ∷ bytes)) (write_left-stuck fuel _ byte bytes stuck)

  -- On a transport over a device that answers every time that it would block, `write` of at least
  -- one byte never returns, whatever the fuel.
  pub write_device-stuck :
      (t : PosixSerialTransport W) (byte : ℕ) (bytes : List ℕ) (fuel : ℕ)
      → t.fd ≡ some fd
      → ((s : W) (rest : List ℕ) → (os.write s fd rest).0 ≡ would_block)
      → write_device fuel t (byte ∷ bytes) ≡ none
  unfolding write_device
  write_device-stuck t byte bytes fuel e stuck =
      rw (write_device, e, write_left-stuck fuel t.system byte bytes stuck) refl
