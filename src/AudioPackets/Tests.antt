-- ===== src/AudioPackets/Tests.antt =====
-- Three packets, the last of them after a gap.
use mi_ster_cast.Prelude.{ℕ, ◌≡◌, refl, true, false, [], ◌∷◌, arith}
use mi_ster_cast.AudioPackets.{
  Packet, Counters, no_packets, count_packet, compare_position, take_position, record_audio_packet,
  record_packets,
}
use mi_ster_cast.AudioPackets.Counts.{Tallied, record_packets-Tallied}

abbrev packet : ℕ → Packet
packet position = record {
  frames = 480;
  silent = false;
  discontinuity = false;
  timestamp_error = false;
  position = position;
  qpc = position;
}

abbrev first : Counters
first = record no_packets {
  packets = 1;
  received = 480;
  last_position = 0;
  valid_positions = 1;
  expected_position = 480;
  position_valid = true;
}

first-packet : record_packets (packet 0 ∷ []) no_packets ≡ first
unfolding record_packets record_audio_packet count_packet compare_position take_position
first-packet = refl

record_packets-Tallied_example :
    Tallied
      (packet 0 ∷ packet 480 ∷ [])
      no_packets
      (record_packets (packet 0 ∷ packet 480 ∷ []) no_packets)
record_packets-Tallied_example =
    record_packets-Tallied (packet 0 ∷ packet 480 ∷ []) no_packets (record {
      packets = omega arith;
      received = omega arith;
      silent = omega arith;
      discontinuities = omega arith;
      timestamp_errors = omega arith;
    })
