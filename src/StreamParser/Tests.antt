-- ===== src/StreamParser/Tests.antt =====
-- Tests of the parser, and its theorems at a concrete stream.
use motorcycle_computer.Base.{◌≡◌, refl, arith, [], ◌∷◌}
use motorcycle_computer.Protocol.Codec.Tests.{
  left_on, left_on_frame, left_on-IsPacket, encode-left_on,
}
use motorcycle_computer.StreamParser.{new_parser, feed}
use motorcycle_computer.StreamParser.Inv.{IsIdle, new_parser-IsValid}
use motorcycle_computer.StreamParser.Stream.{Item, IsSent, on_line, feed-on_line}

abbrev garbled : Item
garbled = record { noise = 0x00 ∷ 0x7E ∷ []; packet = left_on; frame = left_on_frame }

abbrev clean : Item
clean = record { noise = []; packet = left_on; frame = left_on_frame }

garbled-IsSent : IsSent garbled
garbled-IsSent = record { quiet = omega arith; valid = left_on-IsPacket; encoded = encode-left_on }

clean-IsSent : IsSent clean
clean-IsSent = record { quiet = omega arith; valid = left_on-IsPacket; encoded = encode-left_on }

feed-on_line_example :
    ((feed new_parser (on_line (garbled ∷ clean ∷ []))).0 ≡ left_on ∷ left_on ∷ [])
    × IsIdle (feed new_parser (on_line (garbled ∷ clean ∷ []))).1
    × ((feed new_parser (on_line (garbled ∷ clean ∷ []))).1.rejected_frames ≡ 0)
feed-on_line_example =
    feed-on_line new_parser (garbled ∷ clean ∷ []) new_parser-IsValid (refl, refl)
      (garbled-IsSent, (clean-IsSent, tt))
