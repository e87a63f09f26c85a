-- ===== src/StreamParser/Stream.antt =====
-- A stream of frames with noise between them.
use native.Mathlib.Numerals.{add-one}
use motorcycle_computer.Base.{
  ℕ, ◌<◌, ◌≡◌, ◌≢◌, refl, sym, ap, subst, ◌∙◌, arith, List, [], ◌∷◌, ◌++◌, some, length, get_or,
  take, map, drop, length-set, take-set_next, false, All,
}
use motorcycle_computer.Protocol.Packet.{
  Packet, IsPacket, empty_packet, sync_byte1, sync_byte2, max_frame_size,
}
use motorcycle_computer.Protocol.Codec.{encode_packet, fill_packet}
use motorcycle_computer.Protocol.Codec.RoundTrip.{IsFrame, decode-encode, IsFrame-of_decode_packet}
use motorcycle_computer.StreamParser.{StreamParser, store, push, feed, Pushed}
use motorcycle_computer.StreamParser.Inv.{IsValid, IsIdle, push-IsValid}
use motorcycle_computer.StreamParser.Frames.{feed-rest}

push-sync1 :
    (s : StreamParser)
    → s.length ≡ 0
    → push s sync_byte1 empty_packet ≡ (false, store s sync_byte1, empty_packet)
unfolding push
push-sync1 s h = ground arith

push-sync2 :
    (s : StreamParser)
    → s.length ≡ 1
    → push s sync_byte2 empty_packet ≡ (false, store s sync_byte2, empty_packet)
unfolding push
push-sync2 s h = ground arith

push-noise :
    (s : StreamParser) (byte : ℕ)
    → s.length ≡ 0
    → byte ≢ sync_byte1
    → push s byte empty_packet ≡ (false, s, empty_packet)
unfolding push
push-noise s byte h ne = ground arith

-- Every run of bytes keeps the invariant.
pub feed-IsValid : (s : StreamParser) (bytes : List ℕ) → IsValid s → IsValid (feed s bytes).1
unfolding feed
feed-IsValid s [] v = v
feed-IsValid s (byte ∷ bytes) v =
    feed-IsValid (push s byte empty_packet).1 bytes (push-IsValid s byte empty_packet v)

-- A run of bytes may be cut anywhere.
pub feed-append :
    (s : StreamParser) (xs ys : List ℕ)
    → feed s (xs ++ ys) ≡ ((feed s xs).0 ++ (feed (feed s xs).1 ys).0, (feed (feed s xs).1 ys).1)
unfolding feed
feed-append s [] ys = refl
feed-append s (byte ∷ xs) ys = ground (arith, feed-append (push s byte empty_packet).1 xs ys)

-- The parser after the two synchronisation bytes.
synced : StreamParser → StreamParser
unfolding store
synced s = store (store s sync_byte1) sync_byte2

feed-synced :
    (s : StreamParser) (rest : List ℕ)
    → IsIdle s
    → feed s (sync_byte1 ∷ sync_byte2 ∷ rest) ≡ feed (synced s) rest
unfolding feed synced store
feed-synced s rest idle =
    ground
      (arith, push-sync1 s idle.0, push-sync2 (store s sync_byte1) (unfold store in omega arith))

store-IsValid :
    (s : StreamParser) (byte : ℕ)
    → IsValid s
    → push s byte empty_packet ≡ (false, store s byte, empty_packet)
    → IsValid (store s byte)
store-IsValid s byte v e =
    subst (λ (r : Pushed). IsValid r.1) e (push-IsValid s byte empty_packet v)

synced-IsValid : (s : StreamParser) → IsValid s → IsIdle s → IsValid (synced s)
unfolding synced store
synced-IsValid s v idle =
    store-IsValid (store s sync_byte1) sync_byte2
      (store-IsValid s sync_byte1 v (push-sync1 s idle.0))
      (push-sync2 (store s sync_byte1) (omega (arith, idle)))

store-holds :
    (s : StreamParser) (byte : ℕ)
    → s.length < length s.buffer
    → take (store s byte).length (store s byte).buffer ≡ take s.length s.buffer ++ byte ∷ []
unfolding store
store-holds s byte h = rw add-one (take-set_next s.buffer s.length byte h)

synced-holds :
    (s : StreamParser)
    → IsValid s
    → IsIdle s
    → ((synced s).length ≡ 2)
      × (take (synced s).length (synced s).buffer ≡ sync_byte1 ∷ sync_byte2 ∷ [])
      × ((synced s).rejected_frames ≡ s.rejected_frames)
unfolding synced store
synced-holds s v idle = (
  omega (arith, idle),
  store-holds (store s sync_byte1) sync_byte2
        (omega (arith, idle, v.buffer_size, length-set s.buffer s.length sync_byte1))
      ∙ ap (λ t. t ++ sync_byte2 ∷ [])
          (store-holds s sync_byte1 (omega (arith, idle, v.buffer_size)))
      ∙ ap (λ k. (take k s.buffer ++ sync_byte1 ∷ []) ++ sync_byte2 ∷ []) idle.0,
  refl,
)

-- A whole frame, pushed byte by byte into an idle parser.
feed-frame :
    (s : StreamParser) (frame : List ℕ) (n : ℕ)
    → IsFrame frame n
    → IsValid s
    → IsIdle s
    → ((feed s frame).0 ≡ fill_packet frame n empty_packet ∷ [])
      × IsIdle (feed s frame).1
      × ((feed s frame).1.rejected_frames ≡ s.rejected_frames)
feed-frame s [] n f v idle = absurd (omega (arith, f.size))
feed-frame s (a ∷ []) n f v idle = absurd (omega (arith, f.size))
feed-frame s (a ∷ b ∷ []) n f v idle = absurd (omega (arith, f.size))
feed-frame s (a ∷ b ∷ c ∷ rest) n f v idle =
    let held = synced-holds s v idle in
    let start : ◌≡◌ {A = List ℕ} (a ∷ b ∷ c ∷ rest) (sync_byte1 ∷ sync_byte2 ∷ c ∷ rest) =
      cc (f.sync1, f.sync2) in
    let fed : feed s (a ∷ b ∷ c ∷ rest) ≡ feed (synced s) (c ∷ rest) =
      ap (feed s) start ∙ feed-synced s (c ∷ rest) idle in
    let r =
      feed-rest (a ∷ b ∷ c ∷ rest) n f (synced s) c rest (synced-IsValid s v idle)
        (omega (arith, held.0)) (start ∙ ap (λ t. t ++ c ∷ rest) (sym held.1)) in
    ground (arith, fed, r, held.2)

-- Bytes that do not begin a frame.
abbrev pub IsQuiet : List ℕ → Type 0
IsQuiet = All (λ byte. byte ≢ sync_byte1)

feed-noise :
    (s : StreamParser) (noise : List ℕ) → s.length ≡ 0 → IsQuiet noise → feed s noise ≡ ([], s)
unfolding feed
feed-noise s [] h q = refl
feed-noise s (byte ∷ noise) h q = ground (arith, push-noise s byte h q.0, feed-noise s noise h q.1)

-- A packet, its frame, and what comes before it on the line.
pub record Item : Type 0 where
  pub noise : List ℕ
  pub packet : Packet
  pub frame : List ℕ

pub record IsSent (i : Item) : Type 0 where
  pub quiet : IsQuiet i.noise
  pub valid : IsPacket i.packet
  pub encoded : encode_packet i.packet (some max_frame_size) ≡ some i.frame

abbrev pub on_line : List Item → List ℕ
on_line [] = []
on_line (i ∷ is) = (i.noise ++ i.frame) ++ on_line is

-- A packet as it arrives: the payload array is zero past the length.
abbrev pub received : Packet → Packet
received p = record p { payload = take p.length p.payload ++ drop p.length empty_packet.payload }

pub feed-item :
    (s : StreamParser) (i : Item)
    → IsSent i
    → IsValid s
    → IsIdle s
    → ((feed s (i.noise ++ i.frame)).0 ≡ received i.packet ∷ [])
      × IsIdle (feed s (i.noise ++ i.frame)).1
      × ((feed s (i.noise ++ i.frame)).1.rejected_frames ≡ s.rejected_frames)
feed-item s i sent v idle =
    let decoded =
      decode-encode i.packet empty_packet max_frame_size i.frame sent.valid sent.encoded in
    let (f, e) = IsFrame-of_decode_packet i.frame empty_packet (received i.packet) decoded in
    ground (
      arith,
      feed-append s i.noise i.frame,
      feed-noise s i.noise idle.0 sent.quiet,
      feed-frame s i.frame (get_or i.frame 9 0) f v idle,
      e,
    )

-- On a line that carries frames of valid packets, with any bytes but the first synchronisation byte
-- between them, an idle parser yields exactly those packets in order, rejects none, and is idle at
-- the end.
pub feed-on_line :
    (s : StreamParser) (is : List Item)
    → IsValid s
    → IsIdle s
    → All IsSent is
    → ((feed s (on_line is)).0 ≡ map (λ i. received i.packet) is)
      × IsIdle (feed s (on_line is)).1
      × ((feed s (on_line is)).1.rejected_frames ≡ s.rejected_frames)
feed-on_line s [] v idle sent = unfold feed in (refl, idle, refl)
feed-on_line s (i ∷ is) v idle sent =
    let first = feed-item s i sent.0 v idle in
    ground (
      arith,
      first,
      feed-append s (i.noise ++ i.frame) (on_line is),
      feed-on_line (feed s (i.noise ++ i.frame)).1 is (feed-IsValid s (i.noise ++ i.frame) v)
          first.1 sent.1,
    )
