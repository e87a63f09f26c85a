-- ===== src/MotorcycleComputer/DecodeLighting.antt =====
-- library/src/motorcycle_computer.cpp: what the main computer reads of the lighting controller.
--
-- A decoder that returns false leaves the object as it was: `none`. One that returns true gives the
-- new snapshot.
use motorcycle_computer.Base.{
  ℕ, ◌+◌, ◌*◌, zero, suc, Bool, true, false, ◌&&◌, ◌||◌, Option, none, some, List, get_or, set,
  replicate, ltb, u16, ◌==◌, ◌!=◌, if◌then◌else◌, bit_or,
}
use motorcycle_computer.Protocol.Packet.{Packet}
use motorcycle_computer.Protocol.Packet.NodeAddress
use motorcycle_computer.Protocol.Packet.MessageType
use motorcycle_computer.Lighting.{LightingOutput}
use motorcycle_computer.Lighting.Server.{LightingState, set_commanded, valid_output}
use motorcycle_computer.Lighting.Diagnostics.{
  LightingElectricalStatus, unknown, off, normal, open_load, over_current, status_to_u8,
  LightingChannelDiagnostic, empty_channel, index_for,
}

pub record LightingSnapshot : Type 0 where
  pub valid : Bool
  pub lamps : LightingState
  pub updated_at_ms : ℕ

pub record LightingDiagnosticSnapshot : Type 0 where
  pub valid : Bool
  pub channels : List LightingChannelDiagnostic
  pub updated_at_ms : ℕ

pub record LightingFaultSnapshot : Type 0 where
  pub latched : Bool
  pub status : LightingElectricalStatus
  pub shutdown_applied : Bool
  pub occurrence_count : ℕ
  pub updated_at_ms : ℕ

abbrev pub empty_lighting : LightingSnapshot
empty_lighting = record {
  valid = false;
  lamps = record { left = false; right = false; brake = false; high = false };
  updated_at_ms = 0;
}

abbrev pub empty_lighting_diagnostics : LightingDiagnosticSnapshot
empty_lighting_diagnostics = record {
  valid = false;
  channels = replicate 4 empty_channel;
  updated_at_ms = 0;
}

abbrev pub empty_fault : LightingFaultSnapshot
empty_fault = record {
  latched = false;
  status = off;
  shutdown_applied = false;
  occurrence_count = 0;
  updated_at_ms = 0;
}

unfoldable pub read_u32 : Packet → ℕ → ℕ
read_u32 p offset =
    bit_or
      (bit_or
        (bit_or (get_or p.payload offset 0 * 16777216) (get_or p.payload (offset + 1) 0 * 65536))
        (get_or p.payload (offset + 2) 0 * 256))
      (get_or p.payload (offset + 3) 0)

-- `lighting_index(output) >= 4` for a byte that is no output.
abbrev pub lighting_index : LightingOutput → ℕ
lighting_index output = index_for output

-- The loop of `decode_lighting_state`, from the pair at the offset on.
unfoldable pub decode_lamps : LightingState → List ℕ → ℕ → ℕ → Option LightingState
decode_lamps next payload zero offset = some next
decode_lamps next payload (suc count) offset =
    let raw_value = get_or payload (offset + 1) 0 in
    if ltb 1 raw_value then none else elim (valid_output (get_or payload offset 0)) [
      | none ↦ none
      | some output ↦
          decode_lamps (set_commanded next output (raw_value != 0)) payload count (offset + 2)
    ]

unfoldable pub decode_lighting_state : LightingSnapshot → Packet → ℕ → Option LightingSnapshot
unfolding decode_lamps
decode_lighting_state s p now_ms =
    if p.source != NodeAddress.lighting || (p.type != MessageType.state_update || p.length != 8)
    then none
    else elim (decode_lamps s.lamps p.payload 4 0) [
      | none ↦ none
      | some lamps ↦ some (record { valid = true; lamps = lamps; updated_at_ms = now_ms })
    ]

-- The cast to `LightingElectricalStatus` behind its check.
abbrev pub status_of_u8 : ℕ → Option LightingElectricalStatus
status_of_u8 raw =
    if raw == status_to_u8 unknown
    then some unknown
    else if raw == status_to_u8 off
    then some off
    else if raw == status_to_u8 normal
    then some normal
    else if raw == status_to_u8 open_load
    then some open_load
    else if raw == status_to_u8 over_current
    then some over_current
    else none

-- One round of the loop of `decode_lighting_diagnostics`.
unfoldable pub decode_channel : List ℕ → ℕ → Option LightingChannelDiagnostic
decode_channel payload offset =
    if ltb 1 (get_or payload (offset + 1) 0) || ltb 1 (get_or payload (offset + 2) 0)
    then none
    else elim (status_of_u8 (get_or payload (offset + 3) 0)) [
      | none ↦ none
      | some status ↦ elim (valid_output (get_or payload offset 0)) [
        | none ↦ none
        | some output ↦ some (record {
          output = output;
          driven = get_or payload (offset + 1) 0 != 0;
          feedback_available = get_or payload (offset + 2) 0 != 0;
          status = status;
          current_ma =
              u16 (bit_or (get_or payload (offset + 4) 0 * 256) (get_or payload (offset + 5) 0));
        })
      ]
    ]

-- The loop, from channel `i` on, whose bytes stand at the offset.
unfoldable pub decode_channels :
    List LightingChannelDiagnostic → List ℕ → ℕ → ℕ → ℕ → Option (List LightingChannelDiagnostic)
unfolding decode_channel
decode_channels channels payload zero i offset = some channels
decode_channels channels payload (suc count) i offset = elim (decode_channel payload offset) [
  | none ↦ none
  | some channel ↦ decode_channels (set channels i channel) payload count (i + 1) (offset + 6)
]

unfoldable pub decode_lighting_diagnostics :
    LightingDiagnosticSnapshot → Packet → ℕ → Option LightingDiagnosticSnapshot
unfolding decode_channels
decode_lighting_diagnostics s p now_ms =
    if p.source != NodeAddress.lighting
      || (p.type != MessageType.lighting_diagnostic || p.length != 24)
    then none
    else elim (decode_channels (replicate 4 empty_channel) p.payload 4 0 0) [
      | none ↦ none
      | some channels ↦ some (record { valid = true; channels = channels; updated_at_ms = now_ms })
    ]

-- What `decode_lighting_fault` makes of the packet.
unfoldable pub fault_of : Packet → LightingElectricalStatus → ℕ → LightingFaultSnapshot
unfolding read_u32
fault_of p status now_ms =
    let latched = p.type == MessageType.fault in
    record {
      latched = latched;
      status = if latched then status else off;
      shutdown_applied = latched && get_or p.payload 3 0 != 0;
      occurrence_count = read_u32 p 4;
      updated_at_ms = now_ms;
    }

unfoldable pub decode_lighting_fault :
    List LightingFaultSnapshot → Packet → ℕ → Option (List LightingFaultSnapshot)
decode_lighting_fault faults p now_ms =
    if p.source != NodeAddress.lighting
      || ((p.type != MessageType.fault && p.type != MessageType.fault_clear)
          || (p.length != 8 || get_or p.payload 0 0 != 0x01))
    then none
    else elim (valid_output (get_or p.payload 1 0)) [
      | none ↦ none
      | some output ↦ elim (status_of_u8 (get_or p.payload 2 0)) [
        | none ↦ none
        | some status ↦
            if ltb 1 (get_or p.payload 3 0)
            then none
            else some (set faults (lighting_index output) (fault_of p status now_ms))
      ]
    ]
