-- ===== src/AudioPackets.antt =====
-- The packet counters of AudioCapture.h: `AudioCounters` and `RecordAudioPacket`. The flags of the
-- audio client are a Boolean each.
pub mod Counts
mod Tests
use mi_ster_cast.Prelude.{
  ℕ, ◌+◌, ◌-◌, ◌%◌, ◌^◌, Bool, true, false, List, [], ◌∷◌, ltb, ◌==◌, if◌then◌else◌,
}
use mi_ster_cast.Prelude.Words.{u64}

-- One packet of the capture client: its frames (a UINT32), its flags, its position and its time.
pub record Packet : Type 0 where
  pub frames : ℕ
  pub silent : Bool
  pub discontinuity : Bool
  pub timestamp_error : Bool
  pub position : ℕ
  pub qpc : ℕ

-- The fields of `AudioCounters` that the function writes, with `audioExpectedPosition`,
-- `audioPreviousQpc` and `audioPositionValid`.
pub record Counters : Type 0 where
  pub packets : ℕ
  pub received : ℕ
  pub silent : ℕ
  pub discontinuities : ℕ
  pub timestamp_errors : ℕ
  pub position_gaps : ℕ
  pub position_regressions : ℕ
  pub qpc_regressions : ℕ
  pub first_position : ℕ
  pub last_position : ℕ
  pub first_qpc : ℕ
  pub last_qpc : ℕ
  pub valid_positions : ℕ
  pub expected_position : ℕ
  pub previous_qpc : ℕ
  pub position_valid : Bool

-- `StartAudioCapture`: cleared counters, no valid position.
abbrev pub no_packets : Counters
no_packets = record {
  packets = 0;
  received = 0;
  silent = 0;
  discontinuities = 0;
  timestamp_errors = 0;
  position_gaps = 0;
  position_regressions = 0;
  qpc_regressions = 0;
  first_position = 0;
  last_position = 0;
  first_qpc = 0;
  last_qpc = 0;
  valid_positions = 0;
  expected_position = 0;
  previous_qpc = 0;
  position_valid = false;
}

-- The counters before the test of the time stamp.
pub count_packet : Packet → Counters → Counters
count_packet p a = record a {
  packets = u64 (a.packets + 1);
  received = u64 (a.received + p.frames);
  silent = if p.silent then u64 (a.silent + p.frames) else a.silent;
  discontinuities = if p.discontinuity then u64 (a.discontinuities + 1) else a.discontinuities;
}

-- The comparison with the packet before.
pub compare_position : Packet → Counters → Counters
compare_position p a = record a {
  position_gaps =
      if ltb a.expected_position p.position
      then u64 (a.position_gaps + (p.position - a.expected_position))
      else a.position_gaps;
  position_regressions =
      if ltb p.position a.expected_position
      then u64 (a.position_regressions + 1)
      else a.position_regressions;
  qpc_regressions =
      if ltb p.qpc a.previous_qpc then u64 (a.qpc_regressions + 1) else a.qpc_regressions;
}

-- What the next packet is compared with.
pub take_position : Packet → Counters → Counters
take_position p a = record a {
  first_position = if a.valid_positions == 0 then p.position else a.first_position;
  first_qpc = if a.valid_positions == 0 then p.qpc else a.first_qpc;
  valid_positions = u64 (a.valid_positions + 1);
  last_position = p.position;
  last_qpc = p.qpc;
  expected_position = u64 (p.position + p.frames);
  previous_qpc = p.qpc;
  position_valid = true;
}

-- `RecordAudioPacket`
pub record_audio_packet : Packet → Counters → Counters
record_audio_packet p a =
    let counted = count_packet p a in
    if p.timestamp_error
    then record counted {
      timestamp_errors = u64 (counted.timestamp_errors + 1);
      position_valid = false;
    }
    else take_position p (if counted.position_valid then compare_position p counted else counted)

-- The packets of a capture, in their order.
pub record_packets : List Packet → Counters → Counters
record_packets [] a = a
record_packets (p ∷ ps) a = record_packets ps (record_audio_packet p a)
