-- ===== src/Lighting/FaultManager.antt =====
-- library/include/bike/lighting_fault_manager.hpp and library/src/lighting_fault_manager.cpp:
-- `LightingFaultManager`.
--
-- The node and the outputs that it refers to are those of the lighting server, and the diagnostics
-- are passed in.
pub mod Confirm
use motorcycle_computer.Base.{
  ℕ, ◌+◌, ◌/◌, Bool, true, false, not, ◌&&◌, ◌||◌, List, ◌∷◌, replicate, get_or, set, u8, u32, ltb,
  ◌==◌, if◌then◌else◌, bit_or,
}
use motorcycle_computer.Protocol.Packet.{Packet, empty_packet, flag_response, flag_fault}
use motorcycle_computer.Protocol.Packet.NodeAddress
use motorcycle_computer.Protocol.Packet.MessageType
use motorcycle_computer.Transport.{Transport}
use motorcycle_computer.Node.{send}
use motorcycle_computer.Lighting.{
  LightingOutput, left_indicator, right_indicator, brake_bright, high_beam, output_to_u8,
  LightingHardware,
}
use motorcycle_computer.Lighting.Server.{LightingServer}
use motorcycle_computer.Lighting.Diagnostics.{
  LightingElectricalStatus, off, over_current, status_to_u8, is_fault, LightingElectricalFeedback,
  LightingDiagnostics, evaluate, index_for,
}

pub data LightingFaultPolicy : Type 0 where
  report_only shutdown_on_over_current : LightingFaultPolicy

pub record LightingFaultRecord : Type 0 where
  pub active_status : LightingElectricalStatus
  pub latched_status : LightingElectricalStatus
  pub first_seen_ms : ℕ
  pub last_seen_ms : ℕ
  pub occurrence_count : ℕ
  pub last_current_ma : ℕ
  pub latched : Bool
  pub shutdown_applied : Bool

-- `LightingFaultRecord{}`.
abbrev pub empty_record : LightingFaultRecord
empty_record = record {
  active_status = off;
  latched_status = off;
  first_seen_ms = 0;
  last_seen_ms = 0;
  occurrence_count = 0;
  last_current_ma = 0;
  latched = false;
  shutdown_applied = false;
}

pub record LightingFaultManager : Type 0 where
  pub policies : List LightingFaultPolicy
  pub records : List LightingFaultRecord
  pub consecutive_fault_samples : List ℕ
  pub confirm_samples : ℕ

abbrev pub new_fault_manager : LightingFaultManager
new_fault_manager = record {
  policies = replicate 4 report_only;
  records = replicate 4 empty_record;
  consecutive_fault_samples = replicate 4 0;
  confirm_samples = 3;
}

unfoldable pub set_policy :
    LightingFaultManager → LightingOutput → LightingFaultPolicy → LightingFaultManager
set_policy m output policy = record m { policies = set m.policies (index_for output) policy }

unfoldable pub set_confirm_samples : LightingFaultManager → ℕ → LightingFaultManager
set_confirm_samples m value = record m { confirm_samples = if value == 0 then 1 else value }

-- `record`, and the element of the array.
unfoldable pub record_of : LightingFaultManager → LightingOutput → LightingFaultRecord
record_of m output = get_or m.records (index_for output) empty_record

-- `policies_[index] == ShutdownOnOverCurrent`.
abbrev pub is_shutdown : LightingFaultPolicy → Bool
is_shutdown shutdown_on_over_current = true
is_shutdown report_only = false

abbrev pub is_over_current : LightingElectricalStatus → Bool
is_over_current over_current = true
is_over_current _ = false

-- `record.latched_status != diagnostic.status`.
abbrev pub same_status : LightingElectricalStatus → LightingElectricalStatus → Bool
same_status a b = status_to_u8 a == status_to_u8 b

-- The packet of `publish_fault`; the type is `Fault` or `FaultClear`.
unfoldable pub fault_packet : LightingOutput → LightingFaultRecord → ℕ → Packet
fault_packet output r type = record empty_packet {
  destination = NodeAddress.main_computer;
  type = type;
  flags = if type == MessageType.fault then bit_or flag_response flag_fault else flag_response;
  length = 8;
  payload =
      0x01
      ∷ output_to_u8 output
      ∷ status_to_u8 r.latched_status
      ∷ (if r.shutdown_applied then 1 else 0)
      ∷ u8 (r.occurrence_count / 16777216)
      ∷ u8 (r.occurrence_count / 65536)
      ∷ u8 (r.occurrence_count / 256)
      ∷ u8 r.occurrence_count
      ∷ replicate 120 0;
}

-- `consecutive_fault_samples_` after a faulty sample: it stops at 255.
abbrev pub count_sample : ℕ → ℕ
count_sample samples = if ltb samples 255 then samples + 1 else samples

-- The record of a confirmed fault, up to the shutdown.
unfoldable pub latch : LightingFaultRecord → LightingElectricalStatus → ℕ → LightingFaultRecord
latch r status now_ms =
    let counted = u32 (r.occurrence_count + 1) in
    record r {
      first_seen_ms = if r.latched then r.first_seen_ms else now_ms;
      occurrence_count =
          if r.latched && same_status r.latched_status status then r.occurrence_count else counted;
      latched = true;
      latched_status = status;
      last_seen_ms = now_ms;
    }

module _ {S H : Type 0} ⦃t : Transport S⦄ where
  unfoldable pub publish_fault :
      LightingServer S H → LightingOutput → LightingFaultRecord → ℕ → ℕ → Bool × LightingServer S H
  publish_fault s output r type now_ms =
      let (sent, node) = send s.node (fault_packet output r type) now_ms false in
      (sent, record s { node = node })

  unfoldable pub clear_latch :
      LightingFaultManager
      → LightingServer S H
      → LightingOutput
      → ℕ
      → Bool × LightingFaultManager × LightingServer S H
  unfolding record_of
  clear_latch m s output now_ms =
      let index = index_for output in
      let previous = record_of m output in
      (
        true,
        record m {
          records =
              set m.records index (record previous {
                latched = false;
                latched_status = off;
                shutdown_applied = false;
              });
          consecutive_fault_samples = set m.consecutive_fault_samples index 0;
        },
        if previous.latched
            then (publish_fault s output previous MessageType.fault_clear now_ms).1
            else s,
      )

module _ {S H : Type 0} ⦃t : Transport S⦄ ⦃hw : LightingHardware H⦄ where
  -- `update_channel` from the confirmed fault on; `r` is the record with the new sample.
  unfoldable pub confirm_fault :
      LightingFaultManager
      → LightingServer S H
      → LightingOutput
      → LightingFaultRecord
      → LightingElectricalStatus
      → ℕ
      → LightingFaultManager × LightingServer S H
  confirm_fault m s output r status now_ms =
      let index = index_for output in
      let newly_latched = not r.latched || not (same_status r.latched_status status) in
      let latched = latch r status now_ms in
      let (off_done, h) = hw.write_output s.hardware output false in
      let shut = is_over_current status && is_shutdown (get_or m.policies index report_only) in
      let r' = if shut && off_done then record latched { shutdown_applied = true } else latched in
      let s' = if shut then record s { hardware = h } else s in
      (
        record m { records = set m.records index r' },
        if newly_latched then (publish_fault s' output r' MessageType.fault now_ms).1 else s',
      )

module _ {S H F : Type 0} ⦃t : Transport S⦄ ⦃hw : LightingHardware H⦄
    ⦃fb : LightingElectricalFeedback F⦄ where
  unfoldable pub update_channel :
      LightingFaultManager
      → LightingServer S H
      → LightingDiagnostics
      → F
      → LightingOutput
      → ℕ
      → LightingFaultManager × LightingServer S H
  unfolding record_of
  update_channel m s d feedback output now_ms =
      let index = index_for output in
      let diagnostic = evaluate d s feedback output in
      let r = record (record_of m output) {
        active_status = diagnostic.status;
        last_current_ma = diagnostic.current_ma;
      } in
      let samples = count_sample (get_or m.consecutive_fault_samples index 0) in
      let sampled = record m { records = set m.records index r } in
      let counted = record sampled {
        consecutive_fault_samples = set m.consecutive_fault_samples index samples;
      } in
      if not (is_fault diagnostic.status)
      then (
        record sampled { consecutive_fault_samples = set m.consecutive_fault_samples index 0 },
        s,
      )
      else if ltb samples m.confirm_samples
      then (counted, s)
      else confirm_fault counted s output r diagnostic.status now_ms

  unfoldable pub service :
      LightingFaultManager
      → LightingServer S H
      → LightingDiagnostics
      → F
      → ℕ
      → LightingFaultManager × LightingServer S H
  service m s d feedback now_ms =
      let (m₁, s₁) = update_channel m s d feedback left_indicator now_ms in
      let (m₂, s₂) = update_channel m₁ s₁ d feedback right_indicator now_ms in
      let (m₃, s₃) = update_channel m₂ s₂ d feedback brake_bright now_ms in
      update_channel m₃ s₃ d feedback high_beam now_ms
