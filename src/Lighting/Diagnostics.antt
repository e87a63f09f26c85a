-- ===== src/Lighting/Diagnostics.antt =====
-- library/include/bike/lighting_diagnostics.hpp and library/src/lighting_diagnostics.cpp:
-- `LightingDiagnostics`.
--
-- The node and the outputs that it refers to are those of the lighting server.
use motorcycle_computer.Base.{
  ℕ, ◌/◌, Bool, true, false, not, ◌||◌, List, [], ◌∷◌, ◌++◌, replicate, get_or, set, u8, ltb, leb,
  elapsed, if◌then◌else◌, bit_or,
}
use motorcycle_computer.Protocol.Packet.{Packet, empty_packet, flag_response, flag_fault}
use motorcycle_computer.Protocol.Packet.MessageType
use motorcycle_computer.Transport.{Transport}
use motorcycle_computer.Node.{send}
use motorcycle_computer.Lighting.{
  LightingOutput, left_indicator, right_indicator, brake_bright, high_beam, output_to_u8,
  LightingHardware,
}
use motorcycle_computer.Lighting.Server.{LightingServer}

pub data LightingElectricalStatus : Type 0 where
  unknown off normal open_load over_current : LightingElectricalStatus

-- `static_cast<std::uint8_t>(status)`.
abbrev pub status_to_u8 : LightingElectricalStatus → ℕ
status_to_u8 unknown = 0x00
status_to_u8 off = 0x01
status_to_u8 normal = 0x02
status_to_u8 open_load = 0x03
status_to_u8 over_current = 0x04

pub record LightingCurrentLimits : Type 0 where
  pub open_load_below_ma : ℕ
  pub over_current_above_ma : ℕ

-- `LightingCurrentLimits{}`.
abbrev pub default_limits : LightingCurrentLimits
default_limits = record { open_load_below_ma = 50; over_current_above_ma = 5000 }

pub record LightingChannelDiagnostic : Type 0 where
  pub output : LightingOutput
  pub driven : Bool
  pub feedback_available : Bool
  pub status : LightingElectricalStatus
  pub current_ma : ℕ

-- `LightingChannelDiagnostic{}`.
abbrev pub empty_channel : LightingChannelDiagnostic
empty_channel = record {
  output = left_indicator;
  driven = false;
  feedback_available = false;
  status = unknown;
  current_ma = 0;
}

-- The abstract class of the current sensors: whether there is a reading, and what the variable
-- that is passed in, which holds 0, holds afterwards.
pub record LightingElectricalFeedback (F : Type 0) : Type 0 where
  pub read_current_ma : F → LightingOutput → Bool × ℕ

pub record LightingDiagnostics : Type 0 where
  pub limits : List LightingCurrentLimits
  pub publish_interval_ms : ℕ
  pub last_publish_ms : ℕ
  pub published_once : Bool

abbrev pub new_diagnostics : LightingDiagnostics
new_diagnostics = record {
  limits = replicate 4 default_limits;
  publish_interval_ms = 1000;
  last_publish_ms = 0;
  published_once = false;
}

-- `index_for`, for the four outputs that there are.
abbrev pub index_for : LightingOutput → ℕ
index_for left_indicator = 0
index_for right_indicator = 1
index_for brake_bright = 2
index_for high_beam = 3

unfoldable pub set_limits :
    LightingDiagnostics → LightingOutput → LightingCurrentLimits → LightingDiagnostics
set_limits d output limits = record d { limits = set d.limits (index_for output) limits }

unfoldable pub set_publish_interval_ms : LightingDiagnostics → ℕ → LightingDiagnostics
set_publish_interval_ms d value = record d { publish_interval_ms = value }

-- `OpenLoad` or `OverCurrent`.
abbrev pub is_fault : LightingElectricalStatus → Bool
is_fault open_load = true
is_fault over_current = true
is_fault _ = false

-- The end of `evaluate`.
unfoldable pub classify : LightingCurrentLimits → ℕ → LightingElectricalStatus
classify limits current_ma =
    if ltb current_ma limits.open_load_below_ma
    then open_load
    else if ltb limits.over_current_above_ma current_ma
    then over_current
    else normal

-- The six bytes that `publish` writes for a channel.
abbrev pub channel_bytes : LightingChannelDiagnostic → List ℕ
channel_bytes c =
    output_to_u8 c.output
    ∷ (if c.driven then 1 else 0)
    ∷ (if c.feedback_available then 1 else 0)
    ∷ status_to_u8 c.status
    ∷ u8 (c.current_ma / 256)
    ∷ u8 c.current_ma
    ∷ []

module _ {S H F : Type 0} ⦃t : Transport S⦄ ⦃hw : LightingHardware H⦄
    ⦃fb : LightingElectricalFeedback F⦄ where
  unfoldable pub evaluate :
      LightingDiagnostics → LightingServer S H → F → LightingOutput → LightingChannelDiagnostic
  evaluate d s feedback output =
      let driven = hw.read_output s.hardware output in
      let (available, current_ma) = fb.read_current_ma feedback output in
      record {
        output = output;
        driven = driven;
        feedback_available = available;
        status =
            if not driven
            then off
            else if not available
            then unknown
            else classify (get_or d.limits (index_for output) default_limits) current_ma;
        current_ma = current_ma;
      }

  -- The payload of `publish`: the four channels in the order of `kOutputs`.
  unfoldable pub diagnostics_payload : LightingDiagnostics → LightingServer S H → F → List ℕ
  diagnostics_payload d s feedback =
      channel_bytes (evaluate d s feedback left_indicator)
      ++ (channel_bytes (evaluate d s feedback right_indicator)
          ++ (channel_bytes (evaluate d s feedback brake_bright)
              ++ (channel_bytes (evaluate d s feedback high_beam) ++ replicate 104 0)))

  unfoldable pub any_fault : LightingDiagnostics → LightingServer S H → F → Bool
  any_fault d s feedback =
      is_fault (evaluate d s feedback left_indicator).status
      || (is_fault (evaluate d s feedback right_indicator).status
          || (is_fault (evaluate d s feedback brake_bright).status
              || is_fault (evaluate d s feedback high_beam).status))

  unfoldable pub diagnostics_packet : LightingDiagnostics → LightingServer S H → F → ℕ → Packet
  diagnostics_packet d s feedback destination = record empty_packet {
    destination = destination;
    type = MessageType.lighting_diagnostic;
    flags = if any_fault d s feedback then bit_or flag_response flag_fault else flag_response;
    length = 24;
    payload = diagnostics_payload d s feedback;
  }

  unfoldable pub publish :
      LightingDiagnostics
      → LightingServer S H
      → F
      → ℕ
      → ℕ
      → Bool × LightingDiagnostics × LightingServer S H
  publish d s feedback destination now_ms =
      let (sent, node) = send s.node (diagnostics_packet d s feedback destination) now_ms false in
      (
        sent,
        if sent then record d { last_publish_ms = now_ms; published_once = true } else d,
        record s { node = node },
      )

  unfoldable pub service :
      LightingDiagnostics
      → LightingServer S H
      → F
      → ℕ
      → ℕ
      → LightingDiagnostics × LightingServer S H
  service d s feedback now_ms destination =
      let (sent, d', s') = publish d s feedback destination now_ms in
      if not d.published_once || leb d.publish_interval_ms (elapsed now_ms d.last_publish_ms)
      then (d', s')
      else (d, s)
