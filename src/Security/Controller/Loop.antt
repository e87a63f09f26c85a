-- ===== src/Security/Controller/Loop.antt =====
-- library/src/security_controller.cpp: `SecurityController::service`, with fuel for its loop.
use motorcycle_computer.Base.{ℕ, ◌+◌, ◌≤◌, ◌<◌, ◌≡◌, refl, arith, ap, ◌∙◌, false, Option}
use motorcycle_computer.Protocol.Packet.{Packet}
use motorcycle_computer.Transport.{Transport}
use motorcycle_computer.Node
use motorcycle_computer.Node.{BikeNode}
use motorcycle_computer.Node.Drain.{
  IsClosed, IsQuiet, load, Ended, drain, and_then, and_then-Ended, drain-ends, send-quiet,
  service-quiet,
}
use motorcycle_computer.Security.{SecurityHardware, SecurityPersistence}
use motorcycle_computer.Security.Quiet
use motorcycle_computer.Security.Quiet.{handle_packet-quiet, publish_state-quiet}
use motorcycle_computer.Security.Server.{SecurityServer}
use motorcycle_computer.Security.Server.Handlers
use motorcycle_computer.Security.Server.Outputs.{IsLatching, IsSafe}
use motorcycle_computer.Security.Server.Safety.{service-IsSafe}
use motorcycle_computer.Security.Controller.{
  send_device_info, send_heartbeat, handle_system_packet, handle_polled, handle_polled-IsSafe,
}

module _ {S H P : Type 0} where
  abbrev pub node_of : SecurityServer S H P → BikeNode S
  node_of s = s.node

  abbrev pub put_node : SecurityServer S H P → BikeNode S → SecurityServer S H P
  put_node s n = record s { node = n }

module _ {S H P : Type 0} ⦃t : Transport S⦄ ⦃hw : SecurityHardware H⦄
    ⦃ps : SecurityPersistence P⦄ where
  -- `service` after its loop.
  unfoldable pub finish_service : SecurityServer S H P → ℕ → SecurityServer S H P
  finish_service s now_ms =
      let s' = Handlers.service s now_ms in put_node s' (Node.service s'.node now_ms)

  unfoldable pub service : ℕ → SecurityServer S H P → ℕ → Option (SecurityServer S H P)
  service fuel s now_ms =
      and_then (drain node_of put_node handle_polled fuel s now_ms) (λ s'. finish_service s' now_ms)

  pub put_node-IsSafe :
      (s : SecurityServer S H P) (n : BikeNode S) → IsSafe s → IsSafe (put_node s n)
  put_node-IsSafe s n v = record {
    consistent = record {
      output = v.consistent.output;
      timer = v.consistent.timer;
      sampled = v.consistent.sampled;
    };
    inhibit = v.inhibit;
  }

module _ {S H P : Type 0} ⦃t : Transport S⦄ ⦃hw : SecurityHardware H⦄ ⦃ps : SecurityPersistence P⦄
    (left : S → ℕ) (c : IsClosed t left) where
  send_device_info-quiet :
      (s : SecurityServer S H P) (destination now_ms : ℕ)
      → IsQuiet left s.node (send_device_info s destination now_ms).1.node
  unfolding send_device_info
  send_device_info-quiet s destination now_ms = send-quiet left c s.node _ now_ms false

  send_heartbeat-quiet :
      (s : SecurityServer S H P) (destination now_ms : ℕ)
      → IsQuiet left s.node (send_heartbeat s destination now_ms).1.node
  unfolding send_heartbeat
  send_heartbeat-quiet s destination now_ms = send-quiet left c s.node _ now_ms false

  handle_system_packet-quiet :
      (s : SecurityServer S H P) (p : Packet) (now_ms : ℕ)
      → IsQuiet left s.node (handle_system_packet s p now_ms).1.node
  unfolding handle_system_packet
  handle_system_packet-quiet s p now_ms = ground (
    arith,
    send_device_info-quiet s p.source now_ms,
    send_heartbeat-quiet s p.source now_ms,
    publish_state-quiet left c s p.source now_ms,
  )

  handle_polled-quiet :
      (s : SecurityServer S H P) (p : Packet) (now_ms : ℕ)
      → IsQuiet left s.node (handle_polled s p now_ms).node
  unfolding handle_polled
  handle_polled-quiet s p now_ms =
      let s' = (handle_system_packet s p now_ms).1 in
      ground (arith, handle_system_packet-quiet s p now_ms, handle_packet-quiet left c s' p now_ms)

  pub handle_polled-load :
      (s : SecurityServer S H P) (p : Packet) (now_ms : ℕ)
      → load left (handle_polled s p now_ms).node ≤ load left s.node
  handle_polled-load s p now_ms = omega (arith, handle_polled-quiet s p now_ms)

  finish_service-quiet :
      (s : SecurityServer S H P) (now_ms : ℕ) → IsQuiet left s.node (finish_service s now_ms).node
  unfolding finish_service
  finish_service-quiet s now_ms = ground (
    arith,
    Quiet.service-quiet left c s now_ms,
    service-quiet left c (Handlers.service s now_ms).node now_ms,
  )

  finish_service-IsSafe :
      (s : SecurityServer S H P) (now_ms : ℕ)
      → IsLatching hw
      → (s.node.rx_count ≡ 0) × IsSafe s
      → ((finish_service s now_ms).node.rx_count ≡ 0) × IsSafe (finish_service s now_ms)
  unfolding finish_service
  finish_service-IsSafe s now_ms l v = (
    (finish_service-quiet s now_ms).0 ∙ v.0,
    put_node-IsSafe (Handlers.service s now_ms) _ (service-IsSafe l s now_ms v.1.consistent),
  )

  -- While no more bytes come in than the transport has, a round of the controller ends when it has
  -- one unit of fuel more than there are queued packets and bytes left: every packet is taken from
  -- the queue, the outputs agree with the mode if they did before and the hardware works, and more
  -- fuel gives the same result.
  pub service-ends_safely :
      (s : SecurityServer S H P) (now_ms fuel more : ℕ)
      → IsLatching hw
      → IsSafe s
      → load left s.node < fuel
      → Ended
          (λ (s' : SecurityServer S H P). (s'.node.rx_count ≡ 0) × IsSafe s')
          (service fuel s now_ms)
        × (service (more + fuel) s now_ms ≡ service fuel s now_ms)
  unfolding service
  service-ends_safely s now_ms fuel more l v h =
      let loop =
        drain-ends left c node_of put_node handle_polled IsSafe fuel more s now_ms (λ y n. refl)
          (λ y p. handle_polled-load y p now_ms) put_node-IsSafe
          (λ y p w. handle_polled-IsSafe l y p now_ms w) v h in
      (
        and_then-Ended _ _ _ (λ s'. finish_service s' now_ms)
            (λ s' w. finish_service-IsSafe s' now_ms l w) loop.0,
        ap (λ o. and_then o (λ s'. finish_service s' now_ms)) loop.1,
      )
