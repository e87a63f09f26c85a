-- ===== src/MotorcycleComputer/Exchange.antt =====
-- From the security controller's state to what the main computer knows of it: the packet, the frame
-- on the line, the parser, the node and the decoder.
use motorcycle_computer.Base.{
  ℕ, zero, suc, ◌<◌, ◌≡◌, refl, sym, ap, ◌∙◌, arith, Bool, true, false, some, List, [], ◌∷◌, All,
  replicate,
}
use motorcycle_computer.Protocol.Packet.{Packet, IsPacket, max_frame_size}
use motorcycle_computer.Protocol.Packet.NodeAddress
use motorcycle_computer.Protocol.Packet.MessageType
use motorcycle_computer.Protocol.Codec.{encode_packet}
use motorcycle_computer.StreamParser.{feed}
use motorcycle_computer.StreamParser.Inv.{IsIdle}
use motorcycle_computer.StreamParser.Stream.{Item, received, feed-item}
use motorcycle_computer.Transport.{Transport, IsBounded}
use motorcycle_computer.Node.{BikeNode, poll, send, stamp, send_stamped, write_packet}
use motorcycle_computer.Node.Queue.{contents}
use motorcycle_computer.Node.Poll.{IsReceiver, poll_refines}
use motorcycle_computer.Security.{
  SecurityHardware, SecurityPersistence, SecurityMode, mode_to_u8, unlocked, locked, alarm,
  lock_pending,
}
use motorcycle_computer.Security.Server.{
  SecurityServer, state_packet, state_payload, publish_state, flag_byte, engine_counts_running,
}
use motorcycle_computer.MotorcycleComputer.{PacketObserver, MotorcycleComputer, dispatch}
use motorcycle_computer.MotorcycleComputer.Loop.{put_node}
use motorcycle_computer.MotorcycleComputer.Published.{from_node, observed, dispatch-state_packet}

mode_to_u8-lt : (mode : SecurityMode) → mode_to_u8 mode < 256
mode_to_u8-lt unlocked = omega arith
mode_to_u8-lt locked = omega arith
mode_to_u8-lt alarm = omega arith
mode_to_u8-lt lock_pending = omega arith

flag_byte-lt : (b : Bool) → flag_byte b < 256
flag_byte-lt true = omega arith
flag_byte-lt false = omega arith

zeros-lt : (n : ℕ) → All (λ b. b < 256) (replicate n 0)
zeros-lt zero = tt
zeros-lt (suc n) = (omega arith, zeros-lt n)

module _ {S : Type 0} ⦃t : Transport S⦄ where
  write_packet-writes :
      (n : BikeNode S) (p : Packet) (frame : List ℕ)
      → encode_packet p (some max_frame_size) ≡ some frame
      → (write_packet n p).1.transport ≡ (t.write n.transport frame).1
  unfolding write_packet
  write_packet-writes n p frame e = ground (arith, e)

module _ {S H P : Type 0} ⦃t : Transport S⦄ ⦃hw : SecurityHardware H⦄
    ⦃ps : SecurityPersistence P⦄ where
  -- The packet that the published state is on the way.
  abbrev pub sent_state : SecurityServer S H P → Packet
  sent_state s =
      from_node NodeAddress.security s.node.sequence (state_packet s NodeAddress.main_computer)

  sent_state-IsPacket :
      (s : SecurityServer S H P) → s.node.sequence < 65536 → IsPacket (sent_state s)
  unfolding state_packet state_payload
  sent_state-IsPacket s h = record {
    source_lt = omega arith;
    destination_lt = omega arith;
    type_lt = omega arith;
    flags_lt = omega arith;
    sequence_lt = h;
    length_lt = omega arith;
    payload_size = refl;
    payload_lt = (
      mode_to_u8-lt s.mode,
      (
        flag_byte-lt (hw.start_inhibit_active s.hardware),
        (
          flag_byte-lt (hw.alarm_output_active s.hardware),
          (
            flag_byte-lt s.warning.stable,
            (flag_byte-lt s.trigger.stable, (flag_byte-lt (engine_counts_running s), zeros-lt 122)),
          ),
        ),
      ),
    );
  }

  header-sent_state :
      (s : SecurityServer S H P)
      → ((sent_state s).destination ≡ NodeAddress.main_computer)
        × ((sent_state s).type ≡ MessageType.security_state)
  unfolding state_packet
  header-sent_state s = (refl, refl)

  received-sent_state : (s : SecurityServer S H P) → received (sent_state s) ≡ sent_state s
  unfolding state_packet state_payload
  received-sent_state s = refl

  -- Publishing writes the frame of that packet.
  publish_state-writes :
      (s : SecurityServer S H P) (now_ms : ℕ) (frame : List ℕ)
      → s.node.address ≡ NodeAddress.security
      → encode_packet (sent_state s) (some max_frame_size) ≡ some frame
      → (publish_state s NodeAddress.main_computer now_ms).1.node.transport
        ≡ (t.write s.node.transport frame).1
  unfolding publish_state send stamp send_stamped write_packet state_packet state_payload
  publish_state-writes s now_ms frame a e = write_packet-writes _ _ frame (rw a e)

module _ {T : Type 0} ⦃t : Transport T⦄ where
  -- A node that was idle gives the packet whose frame arrives.
  poll-frame :
      (n : BikeNode T) (p : Packet) (frame : List ℕ) (now_ms : ℕ)
      → IsBounded t
      → IsReceiver n
      → contents n ≡ []
      → IsIdle n.parser
      → IsPacket p
      → encode_packet p (some max_frame_size) ≡ some frame
      → (t.read n.transport 64).0 ≡ frame
      → received p ≡ p
      → p.destination ≡ n.address
      → p.type ≡ MessageType.security_state
      → (poll n now_ms).0 ≡ some p
  poll-frame n p frame now_ms b v empty idle valid e r same to kind =
      let item : Item = record { noise = []; packet = p; frame = frame } in
      let fed =
        feed-item n.parser item (record { quiet = tt; valid = valid; encoded = e }) v.parsing
          idle in
      let read : (feed n.parser (t.read n.transport 64).0).0 ≡ p ∷ [] =
        ap (λ bytes. (feed n.parser bytes).0) r ∙ fed.0 ∙ ap (λ q. q ∷ []) same in
      ground (arith, poll_refines n now_ms b v, empty, read, to, kind)

module _ {S T O H P : Type 0} ⦃t : Transport S⦄ ⦃u : Transport T⦄ ⦃hw : SecurityHardware H⦄
    ⦃ps : SecurityPersistence P⦄ (notify : PacketObserver T O) where
  -- The security controller, with its own address and a sequence number of two bytes, publishes its
  -- state to the main computer by writing one frame. When that frame is what the main computer
  -- reads next, with a transport that stays within the buffer, an empty queue and a parser that is
  -- between frames, its poll gives the packet, and dispatching it makes the computer know the
  -- controller's mode, outputs and inputs as they were.
  pub exchange-state :
      (s : SecurityServer S H P) (m : MotorcycleComputer T O) (frame : List ℕ) (sent_ms now_ms : ℕ)
      → s.node.address ≡ NodeAddress.security
      → s.node.sequence < 65536
      → encode_packet (sent_state s) (some max_frame_size) ≡ some frame
      → IsBounded u
      → IsReceiver m.node
      → IsIdle m.node.parser
      → contents m.node ≡ []
      → m.node.address ≡ NodeAddress.main_computer
      → (u.read m.node.transport 64).0 ≡ frame
      → let (polled, n) = poll m.node now_ms in
        let p = sent_state s in
        ((publish_state s NodeAddress.main_computer sent_ms).1.node.transport
          ≡ (t.write s.node.transport frame).1)
        × (polled ≡ some p)
        × (dispatch notify (put_node m n) p now_ms
            ≡ record (observed notify (put_node m n) p now_ms) {
              security_state = record (m.security_state) {
                valid = true;
                mode = s.mode;
                start_inhibit = hw.start_inhibit_active s.hardware;
                alarm_active = hw.alarm_output_active s.hardware;
                shock_warning = s.warning.stable;
                shock_trigger = s.trigger.stable;
                engine_running = engine_counts_running s;
                updated_at_ms = now_ms;
              };
            })
  exchange-state s m frame sent_ms now_ms a q e b v idle empty to r = (
    publish_state-writes s sent_ms frame a e,
    poll-frame m.node (sent_state s) frame now_ms b v empty idle (sent_state-IsPacket s q) e r
        (received-sent_state s) ((header-sent_state s).0 ∙ sym to) (header-sent_state s).1,
    dispatch-state_packet notify (put_node m (poll m.node now_ms).1) s NodeAddress.main_computer
        s.node.sequence now_ms,
  )
