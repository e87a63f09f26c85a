-- ===== src/Protocol/Codec/Reencode.antt =====
-- A frame that the decoder accepts is the one that the encoder writes for the decoded packet.
use motorcycle_computer.Base.{
  ℕ, ◌+◌, ◌*◌, ◌≤◌, ◌<◌, ◌≡◌, refl, arith, some, List, ◌∷◌, [], ◌++◌, length, take, drop, get_or,
  ap, sym, ◌∙◌, length-take, length-drop, length-append, take-append_length, take-append-drop,
  drop-cons, drop-drop, drop-all, All, All-get_or, All-take, All-drop, All-append,
}
use motorcycle_computer.Protocol.Packet.{Packet, IsPacket, ok, max_payload_size}
use motorcycle_computer.Protocol.Codec.{
  write_u16_be, read_u16_be, frame_body, encode_packet, fill_packet, decode_packet,
}
use motorcycle_computer.Protocol.Codec.RoundTrip.{
  IsFrame, IsFrame-of_decode_packet, read_u16_be_lem, length-frame_body, encode_packet_of_fits,
}

abbrev pub AreBytes : List ℕ → Type 0
AreBytes = All (λ b. b < 256)

module _ (frame : List ℕ) (bytes : AreBytes frame) where
  byte-lt : (i : ℕ) → get_or frame i 0 < 256
  byte-lt i = All-get_or (λ b. b < 256) frame i 0 (omega arith) bytes

  pub read-value :
      (i j : ℕ) → j ≡ i + 1 → read_u16_be frame i ≡ get_or frame i 0 * 256 + get_or frame j 0
  read-value i j e =
      read_u16_be_lem frame i _ _ refl (ap (λ k. get_or frame k 0) (sym e)) (byte-lt i) (byte-lt j)

  module _ (n : ℕ) (f : IsFrame frame n) (out : Packet) (size : length out.payload ≡ 128) where
    pub fill_packet-IsPacket : AreBytes out.payload → IsPacket (fill_packet frame n out)
    unfolding fill_packet
    fill_packet-IsPacket h = record {
      source_lt = byte-lt 3;
      destination_lt = byte-lt 4;
      type_lt = byte-lt 5;
      flags_lt = byte-lt 6;
      sequence_lt = omega (arith, read-value 7 8 refl, byte-lt 7, byte-lt 8);
      length_lt = omega (arith, f.fits);
      payload_size = omega (
        arith,
        length-append (take n (drop 10 frame)) (drop n out.payload),
        length-take n (drop 10 frame) (omega (arith, length-drop 10 frame, f.size)),
        length-drop n out.payload,
        f.fits,
      );
      payload_lt =
          All-append (λ b. b < 256) _ _
            (All-take (λ b. b < 256) n _ (All-drop (λ b. b < 256) 10 frame bytes))
            (All-drop (λ b. b < 256) n out.payload h);
    }

    header_split :
        frame
        ≡ get_or frame 0 0
          ∷ get_or frame 1 0
          ∷ get_or frame 2 0
          ∷ get_or frame 3 0
          ∷ get_or frame 4 0
          ∷ get_or frame 5 0
          ∷ get_or frame 6 0
          ∷ get_or frame 7 0
          ∷ get_or frame 8 0
          ∷ get_or frame 9 0
          ∷ drop 10 frame
    header_split = cc (
      drop-cons frame 0 1 0 refl (omega (arith, f.size)),
      drop-cons frame 1 2 0 refl (omega (arith, f.size)),
      drop-cons frame 2 3 0 refl (omega (arith, f.size)),
      drop-cons frame 3 4 0 refl (omega (arith, f.size)),
      drop-cons frame 4 5 0 refl (omega (arith, f.size)),
      drop-cons frame 5 6 0 refl (omega (arith, f.size)),
      drop-cons frame 6 7 0 refl (omega (arith, f.size)),
      drop-cons frame 7 8 0 refl (omega (arith, f.size)),
      drop-cons frame 8 9 0 refl (omega (arith, f.size)),
      drop-cons frame 9 10 0 refl (omega (arith, f.size)),
    )

    tail_split :
        drop 10 frame
        ≡ take n (drop 10 frame) ++ get_or frame (10 + n) 0 ∷ get_or frame (11 + n) 0 ∷ []
    tail_split =
        sym (take-append-drop n (drop 10 frame))
        ∙ ap (λ t. take n (drop 10 frame) ++ t)
            (cc (
              drop-drop frame 10 n (10 + n) refl,
              drop-cons frame (10 + n) (11 + n) 0 (omega arith) (omega (arith, f.size)),
              drop-cons frame (11 + n) (12 + n) 0 (omega arith) (omega (arith, f.size)),
              drop-all (12 + n) frame (omega (arith, f.size)),
            ))

    payload_split : take n (take n (drop 10 frame) ++ drop n out.payload) ≡ take n (drop 10 frame)
    payload_split =
        take-append_length (take n (drop 10 frame)) _ n
          (length-take n (drop 10 frame) (omega (arith, length-drop 10 frame, f.size)))

    frame_split :
        frame
        ≡ frame_body (fill_packet frame n out)
          ++ get_or frame (10 + n) 0 ∷ get_or frame (11 + n) 0 ∷ []
    unfolding frame_body fill_packet write_u16_be
    frame_split = ground (
      arith,
      header_split,
      tail_split,
      payload_split,
      read-value 7 8 refl,
      byte-lt 7,
      byte-lt 8,
      byte-lt 9,
    )

    sum_split :
        write_u16_be (read_u16_be frame (10 + n))
        ≡ get_or frame (10 + n) 0 ∷ get_or frame (11 + n) 0 ∷ []
    unfolding write_u16_be
    sum_split =
        ground
          (arith, read-value (10 + n) (11 + n) (omega arith), byte-lt (10 + n), byte-lt (11 + n))

    body_split : AreBytes out.payload → take (10 + n) frame ≡ frame_body (fill_packet frame n out)
    body_split h =
        ap (take (10 + n)) frame_split
        ∙ take-append_length (frame_body (fill_packet frame n out)) _ (10 + n) (
            unfold fill_packet in
            length-frame_body (fill_packet frame n out) (fill_packet-IsPacket h) f.fits)

    pub reencoded :
        (cap : ℕ)
        → AreBytes out.payload
        → 12 + n ≤ cap
        → encode_packet (fill_packet frame n out) (some cap) ≡ some frame
    reencoded cap h room =
        encode_packet_of_fits (fill_packet frame n out) cap fits_in
          (unfold fill_packet in omega arith)
        ∙ ap some (cc (frame_split, sum_split, body_split h, f.crc))
      where
        fits_in : (fill_packet frame n out).length ≤ max_payload_size
        fits_in = unfold fill_packet in f.fits

-- An accepted frame of bytes, decoded into a valid packet, gives a valid packet again, and encoding
-- that writes the frame back: no two frames decode to one packet.
pub encode-decode :
    (frame : List ℕ) (out p : Packet) (cap : ℕ)
    → AreBytes frame
    → IsPacket out
    → decode_packet (some frame) out ≡ (ok, p)
    → length frame ≤ cap
    → IsPacket p × (encode_packet p (some cap) ≡ some frame)
encode-decode frame out p cap bytes valid h room =
    let (f, e) = IsFrame-of_decode_packet frame out p h in
    rw e (
      fill_packet-IsPacket frame bytes _ f out valid.payload_size valid.payload_lt,
      reencoded frame bytes _ f out valid.payload_size cap valid.payload_lt (omega (arith, f.size)),
    )
