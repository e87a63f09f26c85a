-- ===== src/SelfTest/Tests.antt =====
-- A self-test that nobody can answer, and one that waits for the first answer.
use motorcycle_computer.Base.{ℕ, ◌≡◌, refl, arith, true, false, length, map, [], ◌∷◌}
use motorcycle_computer.Node.Tests.{Memory, memory, main_node}
use motorcycle_computer.Supervisor.Service.{NetworkSupervisor, empty_supervisor}
use motorcycle_computer.SelfTest.{
  TestItem, SelfTestRunner, fail, new_runner, current, begin, start_next, start_items, finish,
  send_request,
}
use motorcycle_computer.Supervisor.{new_status, status}
use motorcycle_computer.Protocol.Packet.NodeAddress
use motorcycle_computer.Protocol.Codec.{encode_packet, encoded_size, frame_body, write_u16_be}
use motorcycle_computer.Protocol.Crc.{crc16_ccitt_false}
use motorcycle_computer.Node
use motorcycle_computer.Node.{new_node}
use motorcycle_computer.SelfTest.Ends.{Visit, serve_all, serve_all-ends}
use motorcycle_computer.SelfTest.Progress.{DoneBelow}
use motorcycle_computer.SelfTest.Report.{Reach-report, made, begun}

-- Without a supervisor that knows the controllers.
abbrev unanswered : SelfTestRunner
unanswered = (begin new_runner main_node empty_supervisor 10).0

unanswered-fails : map (λ (item : TestItem). item.result) unanswered.items ≡ fail ∷ fail ∷ fail ∷ []
unfolding begin start_next start_items finish status
unanswered-fails = refl

Reach-report_example :
    (unanswered.active ≡ false) × (length unanswered.items ≡ 3) × DoneBelow unanswered.items 3
unfolding begin start_next start_items finish status
Reach-report_example =
    (Reach-report Memory {r = unanswered}
        (begun {r = new_runner} main_node empty_supervisor 10 made)).0
      refl

-- Only the lighting controller is online.
abbrev lit : NetworkSupervisor
lit = record empty_supervisor {
  nodes =
      record new_status { address = NodeAddress.lighting; discovered = true; is_online = true }
      ∷ [];
}

-- It was asked, and has not answered.
abbrev pub asking : SelfTestRunner
asking = (begin new_runner main_node lit 10).0

asking-asks : (asking.active ≡ true) × ((current asking).started ≡ 10)
unfolding new_node begin start_next start_items finish send_request status Node.send
    Node.write_packet encode_packet encoded_size frame_body write_u16_be crc16_ccitt_false
asking-asks = (refl, refl)

abbrev at : ℕ → Visit Memory
at now_ms = record { node = main_node; supervisor = lit; now_ms = now_ms }

serve_all-ends_example :
    let r' = serve_all asking (at 1011 ∷ at 2012 ∷ at 3013 ∷ []) in
    (r'.active ≡ false) × (r'.report_ready ≡ true)
serve_all-ends_example =
    serve_all-ends asking (at 1011 ∷ at 2012 ∷ at 3013 ∷ [])
      (begun {r = new_runner} main_node lit 10 made) asking-asks.0
      (omega (arith, asking-asks.1), (omega arith, (omega arith, tt))) (omega arith)
