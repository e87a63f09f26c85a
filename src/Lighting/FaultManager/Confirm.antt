-- ===== src/Lighting/FaultManager/Confirm.antt =====
-- When a fault of an output is latched.
use motorcycle_computer.Base.{
  ℕ, suc, ◌+◌, ◌≤◌, ◌<◌, ◌≡◌, refl, ap, ◌∙◌, arith, true, ◌||◌, List, [], ◌∷◌, length, get_or, set,
  length-set, get_or-set_self, leb, All, if◌then◌else◌,
}
use motorcycle_computer.Protocol.Packet.MessageType
use motorcycle_computer.Transport.{Transport}
use motorcycle_computer.Lighting.{
  LightingOutput, left_indicator, right_indicator, brake_bright, high_beam, LightingHardware,
}
use motorcycle_computer.Lighting.Server.{LightingServer}
use motorcycle_computer.Lighting.Diagnostics.{
  LightingDiagnostics, LightingChannelDiagnostic, LightingElectricalFeedback,
  LightingElectricalStatus, index_for, evaluate, is_fault,
}
use motorcycle_computer.Lighting.FaultManager.{
  LightingFaultManager, LightingFaultRecord, empty_record, report_only, record_of, count_sample,
  latch, publish_fault, confirm_fault, update_channel,
}

-- The arrays have an element for each output.
abbrev pub IsSized : LightingFaultManager → Type 0
IsSized m = (length m.records ≡ 4) × (length m.consecutive_fault_samples ≡ 4)

index_for-lt : (output : LightingOutput) → index_for output < 4
index_for-lt left_indicator = omega arith
index_for-lt right_indicator = omega arith
index_for-lt brake_bright = omega arith
index_for-lt high_beam = omega arith

-- The samples in a row that were faulty.
abbrev pub samples_of : LightingFaultManager → LightingOutput → ℕ
samples_of m output = get_or m.consecutive_fault_samples (index_for output) 0

module _ {S H : Type 0} ⦃t : Transport S⦄ where
  publish_fault-hardware :
      (s : LightingServer S H) (output : LightingOutput) (r : LightingFaultRecord) (type now_ms : ℕ)
      → (publish_fault s output r type now_ms).1.hardware ≡ s.hardware
  unfolding publish_fault
  publish_fault-hardware s output r type now_ms = refl

module _ {S H : Type 0} ⦃t : Transport S⦄ ⦃hw : LightingHardware H⦄ where
  -- A confirmed fault of an output that is only reported.
  confirm_fault-latched :
      (m : LightingFaultManager) (s : LightingServer S H) (output : LightingOutput)
      (r : LightingFaultRecord) (status : LightingElectricalStatus) (now_ms : ℕ)
      → IsSized m
      → get_or m.policies (index_for output) report_only ≡ report_only
      → let (m', s') = confirm_fault m s output r status now_ms in
        IsSized m'
        × (m'.policies ≡ m.policies)
        × (m'.confirm_samples ≡ m.confirm_samples)
        × (m'.consecutive_fault_samples ≡ m.consecutive_fault_samples)
        × ((record_of m' output).latched ≡ true)
        × (s'.hardware ≡ s.hardware)
  unfolding confirm_fault record_of latch
  confirm_fault-latched m s output r status now_ms z p =
      let index = index_for output in
      let latched = latch r status now_ms in
      ground (
        arith,
        p,
        length-set m.records index latched,
        get_or-set_self m.records index latched empty_record
            (omega (arith, z, index_for-lt output)),
        publish_fault-hardware s output latched MessageType.fault now_ms,
      )

module _ {S H F : Type 0} ⦃t : Transport S⦄ ⦃hw : LightingHardware H⦄
    ⦃fb : LightingElectricalFeedback F⦄ where
  -- What a sample finds depends on the outputs only.
  evaluate-hardware :
      (d : LightingDiagnostics) (s s' : LightingServer S H) (feedback : F) (output : LightingOutput)
      → s'.hardware ≡ s.hardware
      → evaluate d s' feedback output ≡ evaluate d s feedback output
  unfolding evaluate
  evaluate-hardware d s s' feedback output e = rw e refl

  -- One faulty sample of an output that is only reported.
  update_channel-faulty :
      (m : LightingFaultManager) (s : LightingServer S H) (d : LightingDiagnostics) (feedback : F)
      (output : LightingOutput) (now_ms : ℕ)
      → IsSized m
      → get_or m.policies (index_for output) report_only ≡ report_only
      → is_fault (evaluate d s feedback output).status ≡ true
      → let (m', s') = update_channel m s d feedback output now_ms in
        IsSized m'
        × (m'.policies ≡ m.policies)
        × (m'.confirm_samples ≡ m.confirm_samples)
        × (samples_of m' output ≡ count_sample (samples_of m output))
        × ((record_of m' output).latched ≡ (
            (record_of m output).latched
            || leb m.confirm_samples (count_sample (samples_of m output))))
        × (s'.hardware ≡ s.hardware)
  unfolding update_channel record_of
  update_channel-faulty m s d feedback output now_ms z p f =
      let index = index_for output in
      let diagnostic = evaluate d s feedback output in
      let r = record (record_of m output) {
        active_status = diagnostic.status;
        last_current_ma = diagnostic.current_ma;
      } in
      let samples = count_sample (samples_of m output) in
      let counted = record m {
        records = set m.records index r;
        consecutive_fault_samples = set m.consecutive_fault_samples index samples;
      } in
      let lt = index_for-lt output in
      let records_length = length-set m.records index r in
      let samples_length = length-set m.consecutive_fault_samples index samples in
      ground (
        arith,
        f,
        records_length,
        samples_length,
        get_or-set_self m.records index r empty_record (omega (arith, z, lt)),
        get_or-set_self m.consecutive_fault_samples index samples 0 (omega (arith, z, lt)),
        confirm_fault-latched counted s output r diagnostic.status now_ms
            (omega (arith, z, records_length), omega (arith, z, samples_length)) p,
      )

-- What a sample finds at its time: the sensors, their settings, and the outputs.
pub record Sample (H F : Type 0) : Type 0 where
  pub diagnostics : LightingDiagnostics
  pub feedback : F
  pub hardware : H
  pub now_ms : ℕ

-- The outputs at the last sample.
abbrev pub last_hardware : {H F : Type 0} → Sample H F → List (Sample H F) → H
last_hardware x [] = x.hardware
last_hardware x (next ∷ samples) = last_hardware next samples

module _ {S H F : Type 0} where
  -- A server with the outputs as they are at the sample.
  abbrev pub at : LightingServer S H → Sample H F → LightingServer S H
  at s x = record s { hardware = x.hardware }

module _ {S H F : Type 0} ⦃t : Transport S⦄ ⦃hw : LightingHardware H⦄
    ⦃fb : LightingElectricalFeedback F⦄ where
  abbrev pub IsFaulty : LightingServer S H → LightingOutput → Sample H F → Type 0
  IsFaulty s output x = is_fault (evaluate x.diagnostics (at s x) x.feedback output).status ≡ true

  IsFaulty-server :
      (s s' : LightingServer S H) (output : LightingOutput) (samples : List (Sample H F))
      → All (IsFaulty s output) samples
      → All (IsFaulty s' output) samples
  IsFaulty-server s s' output [] f = tt
  IsFaulty-server s s' output (x ∷ samples) f = (
    ap (λ (e : LightingChannelDiagnostic). is_fault e.status)
          (evaluate-hardware x.diagnostics (at s x) (at s' x) x.feedback output refl)
        ∙ f.0,
    IsFaulty-server s s' output samples f.1,
  )

  -- Samples of one output, one after another.
  pub update_all :
      LightingFaultManager
      → LightingServer S H
      → LightingOutput
      → List (Sample H F)
      → LightingFaultManager × LightingServer S H
  update_all m s output [] = (m, s)
  update_all m s output (x ∷ samples) =
      let (m', s') = update_channel m (at s x) x.diagnostics x.feedback output x.now_ms in
      update_all m' s' output samples

  -- While an output whose faults are only reported is faulty in every sample, each with the sensors,
  -- their settings and the outputs of its time, its fault is latched after the samples exactly when
  -- it was before or as many samples in a row were faulty as confirm a fault, those before included.
  -- These are then counted, up to 255; the policies and the number that confirms a fault stay; and
  -- the outputs are not written to. The arrays have four elements, before and after, at most 255
  -- faulty samples were counted before, and at most 255 confirm a fault.
  pub update_all-latched :
      (m : LightingFaultManager) (s : LightingServer S H) (output : LightingOutput) (x : Sample H F)
      (samples : List (Sample H F))
      → IsSized m
      → get_or m.policies (index_for output) report_only ≡ report_only
      → m.confirm_samples ≤ 255
      → samples_of m output ≤ 255
      → All (IsFaulty s output) (x ∷ samples)
      → let (m', s') = update_all m s output (x ∷ samples) in
        let count = samples_of m output + suc (length samples) in
        ((record_of m' output).latched
          ≡ ((record_of m output).latched || leb m.confirm_samples count))
        × (samples_of m' output ≡ (if leb count 255 then count else 255))
        × IsSized m'
        × (m'.policies ≡ m.policies)
        × (m'.confirm_samples ≡ m.confirm_samples)
        × (s'.hardware ≡ last_hardware x samples)
  unfolding update_all
  update_all-latched m s output x [] z p c l f =
      let now = update_channel-faulty m (at s x) x.diagnostics x.feedback output x.now_ms z p f.0 in
      ground (arith, c, l, now)
  update_all-latched m s output x (next ∷ samples) z p c l f =
      let (m', s') = update_channel m (at s x) x.diagnostics x.feedback output x.now_ms in
      let now = update_channel-faulty m (at s x) x.diagnostics x.feedback output x.now_ms z p f.0 in
      let later =
        update_all-latched m' s' output next samples now.0
          (ap (λ policies. get_or policies (index_for output) report_only) now.1 ∙ p)
          (omega (arith, c, now)) (ground (arith, l, now))
          (IsFaulty-server s s' output (next ∷ samples) f.1) in
      ground (arith, c, l, now, later)
