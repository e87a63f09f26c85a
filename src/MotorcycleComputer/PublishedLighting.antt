-- ===== src/MotorcycleComputer/PublishedLighting.antt =====
-- What the lighting controller publishes is what the main computer knows of it afterwards.
use motorcycle_computer.Base.{
  ℕ, ◌+◌, ◌/◌, ◌<◌, ◌≡◌, refl, arith, Bool, true, not, ◌&&◌, some, List, [], ◌∷◌, ◌++◌, get_or, set,
  u8, if◌then◌else◌, replicate,
}
use motorcycle_computer.Base.Bits.{bit_or_byte, bit_or_word}
use motorcycle_computer.Protocol.Packet.NodeAddress
use motorcycle_computer.Protocol.Packet.MessageType
use motorcycle_computer.Transport.{Transport}
use motorcycle_computer.Lighting.{
  LightingOutput, left_indicator, right_indicator, brake_bright, high_beam, output_to_u8,
  LightingHardware,
}
use motorcycle_computer.Lighting.Server.{LightingServer, state_packet, actual_state, valid_output}
use motorcycle_computer.Lighting.Diagnostics.{
  LightingElectricalStatus, unknown, off, normal, open_load, over_current, status_to_u8,
  LightingElectricalFeedback, LightingDiagnostics, LightingChannelDiagnostic, empty_channel,
  channel_bytes, evaluate, diagnostics_payload, diagnostics_packet, index_for,
}
use motorcycle_computer.Lighting.FaultManager.{LightingFaultRecord, fault_packet}
use motorcycle_computer.MotorcycleComputer.{PacketObserver, MotorcycleComputer, decode, dispatch}
use motorcycle_computer.MotorcycleComputer.Published.{from_node, observed}
use motorcycle_computer.MotorcycleComputer.DecodeLighting.{
  decode_lighting_state, decode_lighting_diagnostics, decode_channels, decode_channel,
  decode_lighting_fault, status_of_u8, fault_of, read_u32,
}

module _ {S T O H : Type 0} ⦃t : Transport S⦄ ⦃hw : LightingHardware H⦄
    (notify : PacketObserver T O) where
  -- The packet that a published state is on the way makes the main computer know the lamps as the
  -- outputs were, whatever it knew of them; what it knows of anything else stays.
  pub dispatch-lighting_state :
      (m : MotorcycleComputer T O) (s : LightingServer S H) (destination sequence now_ms : ℕ)
      → let p = from_node NodeAddress.lighting sequence (state_packet s destination) in
        dispatch notify m p now_ms ≡ record (observed notify m p now_ms) {
          lighting_state = record { valid = true; lamps = actual_state s; updated_at_ms = now_ms };
        }
  unfolding dispatch decode decode_lighting_state state_packet actual_state
  dispatch-lighting_state m s destination sequence now_ms = ground arith

status_of_u8-status_to_u8 :
    (status : LightingElectricalStatus) → status_of_u8 (status_to_u8 status) ≡ some status
status_of_u8-status_to_u8 unknown = refl
status_of_u8-status_to_u8 off = refl
status_of_u8-status_to_u8 normal = refl
status_of_u8-status_to_u8 open_load = refl
status_of_u8-status_to_u8 over_current = refl

valid_output-output_to_u8 :
    (output : LightingOutput) → valid_output (output_to_u8 output) ≡ some output
valid_output-output_to_u8 left_indicator = refl
valid_output-output_to_u8 right_indicator = refl
valid_output-output_to_u8 brake_bright = refl
valid_output-output_to_u8 high_beam = refl

-- A channel whose six bytes stand at the offset is read back.
decode_channel-channel_bytes :
    (c : LightingChannelDiagnostic) (payload : List ℕ) (offset : ℕ)
    → c.current_ma < 65536
    → get_or payload offset 0 ≡ output_to_u8 c.output
    → get_or payload (offset + 1) 0 ≡ (if c.driven then 1 else 0)
    → get_or payload (offset + 2) 0 ≡ (if c.feedback_available then 1 else 0)
    → get_or payload (offset + 3) 0 ≡ status_to_u8 c.status
    → get_or payload (offset + 4) 0 ≡ u8 (c.current_ma / 256)
    → get_or payload (offset + 5) 0 ≡ u8 c.current_ma
    → decode_channel payload offset ≡ some c
unfolding decode_channel
decode_channel-channel_bytes c payload offset lt e0 e1 e2 e3 e4 e5 = ground (
  arith,
  e0,
  e1,
  e2,
  e3,
  e4,
  e5,
  valid_output-output_to_u8 c.output,
  status_of_u8-status_to_u8 c.status,
  bit_or_byte (u8 (c.current_ma / 256)) (u8 c.current_ma) (omega arith),
)

-- Four channels are read back in their order.
decode_channels-channel_bytes :
    (a b c e : LightingChannelDiagnostic) (rest : List ℕ)
    → a.current_ma < 65536
    → b.current_ma < 65536
    → c.current_ma < 65536
    → e.current_ma < 65536
    → decode_channels
        (replicate 4 empty_channel)
        (channel_bytes a ++ (channel_bytes b ++ (channel_bytes c ++ (channel_bytes e ++ rest))))
        4
        0
        0
      ≡ some (a ∷ b ∷ c ∷ e ∷ [])
unfolding decode_channels
decode_channels-channel_bytes a b c e rest la lb lc le =
    let payload =
      channel_bytes a ++ (channel_bytes b ++ (channel_bytes c ++ (channel_bytes e ++ rest))) in
    ground (
      arith,
      decode_channel-channel_bytes a payload 0 la refl refl refl refl refl refl,
      decode_channel-channel_bytes b payload 6 lb refl refl refl refl refl refl,
      decode_channel-channel_bytes c payload 12 lc refl refl refl refl refl refl,
      decode_channel-channel_bytes e payload 18 le refl refl refl refl refl refl,
    )

module _ {S H F : Type 0} ⦃t : Transport S⦄ ⦃hw : LightingHardware H⦄
    ⦃fb : LightingElectricalFeedback F⦄ where
  evaluate-current_ma :
      (d : LightingDiagnostics) (s : LightingServer S H) (feedback : F) (output : LightingOutput)
      → (fb.read_current_ma feedback output).1 < 65536
      → (evaluate d s feedback output).current_ma < 65536
  unfolding evaluate
  evaluate-current_ma d s feedback output h = h

module _ {S T O H F : Type 0} ⦃t : Transport S⦄ ⦃hw : LightingHardware H⦄
    ⦃fb : LightingElectricalFeedback F⦄ (notify : PacketObserver T O) where
  -- Where the currents fit their two bytes, the packet that published diagnostics are on the way
  -- makes the main computer know each channel as it was evaluated; what it knows of anything else
  -- stays.
  pub dispatch-diagnostics_packet :
      (m : MotorcycleComputer T O) (d : LightingDiagnostics) (s : LightingServer S H) (feedback : F)
      (destination sequence now_ms : ℕ)
      → ((output : LightingOutput) → (fb.read_current_ma feedback output).1 < 65536)
      → let p =
          from_node NodeAddress.lighting sequence (diagnostics_packet d s feedback destination) in
        dispatch notify m p now_ms ≡ record (observed notify m p now_ms) {
          lighting_diagnostics = record {
            valid = true;
            channels =
                evaluate d s feedback left_indicator
                ∷ evaluate d s feedback right_indicator
                ∷ evaluate d s feedback brake_bright
                ∷ evaluate d s feedback high_beam
                ∷ [];
            updated_at_ms = now_ms;
          };
        }
  unfolding dispatch decode decode_lighting_state decode_lighting_diagnostics diagnostics_packet
      diagnostics_payload
  dispatch-diagnostics_packet m d s feedback destination sequence now_ms h =
      let channel = λ (output : LightingOutput). evaluate d s feedback output in
      let small = λ (output : LightingOutput). evaluate-current_ma d s feedback output (h output) in
      ground (
        arith,
        decode_channels-channel_bytes (channel left_indicator) (channel right_indicator)
            (channel brake_bright) (channel high_beam) (replicate 104 0) (small left_indicator)
            (small right_indicator) (small brake_bright) (small high_beam),
      )

module _ {T O : Type 0} (notify : PacketObserver T O) where
  -- Where the count fits its four bytes, the packet of a latched fault makes the main computer hold
  -- the fault of that output as the record has it, and the packet of a cleared one makes it hold
  -- none, with the same count; it holds every other fault as before.
  pub dispatch-fault_packet :
      (m : MotorcycleComputer T O) (output : LightingOutput) (r : LightingFaultRecord)
      (is_clear : Bool) (sequence now_ms : ℕ)
      → r.occurrence_count < 4294967296
      → let type = if is_clear then MessageType.fault_clear else MessageType.fault in
        let p = from_node NodeAddress.lighting sequence (fault_packet output r type) in
        dispatch notify m p now_ms ≡ record (observed notify m p now_ms) {
          lighting_faults = set m.lighting_faults (index_for output) (record {
            latched = not is_clear;
            status = if is_clear then off else r.latched_status;
            shutdown_applied = not is_clear && r.shutdown_applied;
            occurrence_count = r.occurrence_count;
            updated_at_ms = now_ms;
          });
        }
  unfolding dispatch decode decode_lighting_state decode_lighting_diagnostics decode_lighting_fault
      fault_packet fault_of read_u32
  dispatch-fault_packet m output r is_clear sequence now_ms h =
      let count = r.occurrence_count in
      ground (
        arith,
        valid_output-output_to_u8 output,
        status_of_u8-status_to_u8 r.latched_status,
        bit_or_word (u8 (count / 16777216)) (u8 (count / 65536)) (u8 (count / 256)) (u8 count)
            (omega arith) (omega arith) (omega arith),
      )
