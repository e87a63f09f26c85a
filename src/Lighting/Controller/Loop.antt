-- ===== src/Lighting/Controller/Loop.antt =====
-- library/src/lighting_controller.cpp: `LightingController::service`, with fuel for its loop.
use motorcycle_computer.Base.{
  ℕ, ◌+◌, ◌≤◌, ◌<◌, ◌≡◌, refl, arith, ap, ◌∙◌, Bool, true, false, Option, Option-cases, inl, inr,
  get_or, ◌!=◌,
}
use motorcycle_computer.Protocol.Packet.{Packet}
use motorcycle_computer.Transport.{Transport}
use motorcycle_computer.Node
use motorcycle_computer.Node.{BikeNode, wants_ack}
use motorcycle_computer.Node.Drain.{
  IsClosed, IsQuiet, load, Ended, drain, and_then, and_then-Ended, drain-ends, send-quiet,
  send_ack-quiet, service-quiet,
}
use motorcycle_computer.Lighting.{LightingHardware}
use motorcycle_computer.Lighting.Server.{
  LightingServer, valid_output, apply_output, publish_state, acknowledge, state_packet,
  handle_packet,
}
use motorcycle_computer.Lighting.Controller.{
  send_device_info, send_heartbeat, answer, handle_system_packet, handle_polled,
}

module _ {S H : Type 0} where
  abbrev pub node_of : LightingServer S H → BikeNode S
  node_of s = s.node

  abbrev pub put_node : LightingServer S H → BikeNode S → LightingServer S H
  put_node s n = record s { node = n }

module _ {S H : Type 0} ⦃t : Transport S⦄ ⦃hw : LightingHardware H⦄ where
  unfoldable pub service : ℕ → LightingServer S H → ℕ → Option (LightingServer S H)
  service fuel s now_ms =
      and_then (drain node_of put_node handle_polled fuel s now_ms)
        (λ (s' : LightingServer S H). put_node s' (Node.service s'.node now_ms))

module _ {S H : Type 0} ⦃t : Transport S⦄ (left : S → ℕ) (c : IsClosed t left) where
  send_device_info-quiet :
      (s : LightingServer S H) (destination now_ms : ℕ)
      → IsQuiet left s.node (send_device_info s destination now_ms).1.node
  unfolding send_device_info
  send_device_info-quiet s destination now_ms = send-quiet left c s.node _ now_ms false

  send_heartbeat-quiet :
      (s : LightingServer S H) (destination now_ms : ℕ)
      → IsQuiet left s.node (send_heartbeat s destination now_ms).1.node
  unfolding send_heartbeat
  send_heartbeat-quiet s destination now_ms = send-quiet left c s.node _ now_ms false

module _ {S H : Type 0} ⦃t : Transport S⦄ ⦃hw : LightingHardware H⦄ (left : S → ℕ)
    (c : IsClosed t left) where
  publish_state-quiet :
      (s : LightingServer S H) (destination now_ms : ℕ)
      → IsQuiet left s.node (publish_state s destination now_ms).1.node
  unfolding publish_state
  publish_state-quiet s destination now_ms =
      send-quiet left c s.node (state_packet s destination) now_ms false

  acknowledge-quiet :
      (s : LightingServer S H) (p : Packet) (nack : Bool)
      → IsQuiet left s.node (acknowledge s p nack).node
  unfolding acknowledge
  acknowledge-quiet s p nack = send_ack-quiet left c s.node p.source p.sequence nack

  answer-quiet :
      (s : LightingServer S H) (p : Packet) (nack : Bool)
      → IsQuiet left s.node (answer s p nack).node
  unfolding answer
  answer-quiet s p nack = ground (arith, acknowledge-quiet s p nack)

  -- A command that is answered, for the output that it names.
  handle_packet-quiet :
      (s : LightingServer S H) (p : Packet) (now_ms : ℕ)
      → IsQuiet left s.node (handle_packet s p now_ms).1.node
  unfolding handle_packet apply_output
  handle_packet-quiet s p now_ms = elim (Option-cases (valid_output (get_or p.payload 0 0))) [
    | inl q ↦ ground (arith, q, acknowledge-quiet s p true)
    | inr (output, q) ↦
        let s' = (apply_output s output (get_or p.payload 1 0 != 0)).1 in
        ground (
          arith,
          q,
          acknowledge-quiet s p true,
          acknowledge-quiet s' p true,
          acknowledge-quiet s' p false,
          publish_state-quiet (acknowledge s' p false) p.source now_ms,
        )
  ]

  handle_system_packet-quiet :
      (s : LightingServer S H) (p : Packet) (now_ms : ℕ)
      → IsQuiet left s.node (handle_system_packet s p now_ms).1.node
  unfolding handle_system_packet
  handle_system_packet-quiet s p now_ms =
      let answered = answer s p false in
      ground (
        arith,
        answer-quiet s p false,
        send_device_info-quiet left c answered p.source now_ms,
        send_heartbeat-quiet left c answered p.source now_ms,
        publish_state-quiet answered p.source now_ms,
      )

  pub handle_polled-load :
      (s : LightingServer S H) (p : Packet) (now_ms : ℕ)
      → load left (handle_polled s p now_ms).node ≤ load left s.node
  unfolding handle_polled
  handle_polled-load s p now_ms =
      let s₁ = (handle_system_packet s p now_ms).1 in
      let s₂ = (handle_packet s₁ p now_ms).1 in
      ground (
        arith,
        handle_system_packet-quiet s p now_ms,
        handle_packet-quiet s₁ p now_ms,
        answer-quiet s₂ p true,
      )

  -- While no more bytes come in than the transport has, a round of the controller ends when it has
  -- one unit of fuel more than there are queued packets and bytes left; every packet is taken from
  -- the queue, and more fuel gives the same result.
  pub service-ends :
      (s : LightingServer S H) (now_ms fuel more : ℕ)
      → load left s.node < fuel
      → Ended (λ (s' : LightingServer S H). s'.node.rx_count ≡ 0) (service fuel s now_ms)
        × (service (more + fuel) s now_ms ≡ service fuel s now_ms)
  unfolding service
  service-ends s now_ms fuel more h =
      let loop =
        drain-ends left c node_of put_node handle_polled (λ _. Unit) fuel more s now_ms
          (λ y n. refl) (λ y p. handle_polled-load y p now_ms) (λ y n _. tt) (λ y p _. tt) tt h in
      (
        and_then-Ended (λ (s' : LightingServer S H). (s'.node.rx_count ≡ 0) × Unit) _ _
            (λ (s' : LightingServer S H). put_node s' (Node.service s'.node now_ms))
            (λ (s' : LightingServer S H) w. (service-quiet left c s'.node now_ms).0 ∙ w.0) loop.0,
        ap
            (λ o.
              and_then o (λ (s' : LightingServer S H). put_node s' (Node.service s'.node now_ms)))
            loop.1,
      )
