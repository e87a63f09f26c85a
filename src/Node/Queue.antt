-- ===== src/Node/Queue.antt =====
-- The ring of received packets behaves as a queue of at most eight.
use motorcycle_computer.Base.{
  ℕ, zero, suc, ◌+◌, ◌-◌, ◌%◌, ◌≤◌, ◌<◌, ◌≡◌, ◌≢◌, ◌⊎◌, refl, ap, ap₂, ◌∙◌, arith, List, [], ◌∷◌,
  ◌++◌, some, none, true, false, length, get_or, set, length-set, get_or-set_self, get_or-set_ne,
  if◌then◌else◌, leb, u32,
}
use motorcycle_computer.Protocol.Packet.{Packet, empty_packet}
use motorcycle_computer.Node.{BikeNode, enqueue_rx, dequeue_rx, node_rx_queue_size}

-- The `n` packets from index `head` on, going round at the end of the array.
abbrev pub window : List Packet → ℕ → ℕ → List Packet
window buf head zero = []
window buf head (suc n) = get_or buf head empty_packet ∷ window buf ((head + 1) % 8) n

length-window : (buf : List Packet) (head n : ℕ) → length (window buf head n) ≡ n
length-window buf head zero = refl
length-window buf head (suc n) = ap suc (length-window buf ((head + 1) % 8) n)

window_of_pos :
    (buf : List Packet) (head n : ℕ)
    → n ≢ 0
    → window buf head n ≡ get_or buf head empty_packet ∷ window buf ((head + 1) % 8) (n - 1)
window_of_pos buf head zero h = absurd (h refl)
window_of_pos buf head (suc n) h = ap (λ k. window buf head (suc k)) (omega arith)

-- Writing just past a window extends it by that packet.
window-set :
    (buf : List Packet) (n head i : ℕ) (p : Packet)
    → length buf ≡ 8
    → head < 8
    → n < 8
    → i ≡ (head + n) % 8
    → window (set buf i p) head (suc n) ≡ window buf head n ++ p ∷ []
window-set buf zero head i p size hh hn e =
    ap (λ q. q ∷ [])
      (ap (λ k. get_or (set buf i p) k empty_packet) (omega arith)
        ∙ get_or-set_self buf i p empty_packet (omega arith))
window-set buf (suc n) head i p size hh hn e =
    ap₂ ◌∷◌ (get_or-set_ne buf p empty_packet (omega arith))
      (window-set buf n ((head + 1) % 8) i p size (omega arith) (omega arith) (omega arith))

module _ {S : Type 0} where
  -- The received packets, oldest first.
  abbrev pub contents : BikeNode S → List Packet
  contents n = window n.rx_queue n.rx_head n.rx_count

  -- The indices stay within the array and agree with the count.
  pub record IsQueue (n : BikeNode S) : Type 0 where
    pub size : length n.rx_queue ≡ node_rx_queue_size
    pub head_lt : n.rx_head < node_rx_queue_size
    pub count_le : n.rx_count ≤ node_rx_queue_size
    pub tail_eq : n.rx_tail ≡ (n.rx_head + n.rx_count) % node_rx_queue_size

  pub length-contents : (n : BikeNode S) → length (contents n) ≡ n.rx_count
  length-contents n = length-window n.rx_queue n.rx_head n.rx_count

  -- `enqueue_rx` appends a packet unless eight are held; then it drops it, says so and counts it.
  -- `IsQueue` is kept either way.
  pub enqueue_rx_refines :
      (n : BikeNode S) (p : Packet)
      → IsQueue n
      → IsQueue (enqueue_rx n p).1
        × (contents (enqueue_rx n p).1
            ≡ (if leb 8 (length (contents n)) then contents n else contents n ++ p ∷ []))
        × ((enqueue_rx n p).0 ≡ (if leb 8 (length (contents n)) then false else true))
        × ((enqueue_rx n p).1.rx_drops
            ≡ (if leb 8 (length (contents n)) then u32 (n.rx_drops + 1) else n.rx_drops))
  unfolding enqueue_rx
  enqueue_rx_refines n p v = ground (
    arith,
    length-contents n,
    length-set n.rx_queue n.rx_tail p,
    window-set n.rx_queue n.rx_count n.rx_head n.rx_tail p,
  )

  -- `dequeue_rx` gives the oldest packet and leaves the rest, and `none` exactly when the queue is
  -- empty.
  pub dequeue_rx_refines :
      (n : BikeNode S)
      → IsQueue n
      → IsQueue (dequeue_rx n).1
        × (((contents n ≡ []) × (dequeue_rx n ≡ (none, n)))
            ⊎ ((p : Packet) × ((dequeue_rx n).0 ≡ some p)
                × (contents n ≡ p ∷ contents (dequeue_rx n).1)))
  unfolding dequeue_rx
  dequeue_rx_refines n v = ground (arith, window_of_pos n.rx_queue n.rx_head n.rx_count)
