-- ===== src/AudioCapture/Samples.antt =====
-- Test data: a tick with one packet, over a type of doubles with one value.
use mi_ster_cast.Prelude.{ℕ, ◌+◌, true, false, Option, none, some, [], ◌∷◌, replicate}
use mi_ster_cast.Prelude.Int.{ℤ, pos}
use mi_ster_cast.AudioPackets.{Packet, no_packets}
use mi_ster_cast.AudioTimeline.{Timeline, free}
use mi_ster_cast.ReceiverClock.{Doubles, Clock}
use mi_ster_cast.AudioCapture.{Capture, Tick}

abbrev pub no_doubles : Doubles Unit
no_doubles = record {
  of_int = λ i. tt;
  add = λ a b. tt;
  sub = λ a b. tt;
  mul = λ a b. tt;
  div = λ a b. tt;
  abs = λ a. tt;
  greater = λ a b. false;
  llround = λ a. pos 0;
}

abbrev pub timeline : Timeline
timeline = record {
  slots = replicate 4 free;
  rate = 1000;
  pending = 0;
  epoch = pos 0;
  delay = 2;
  lead = 1;
  packet_end = pos 0;
  last_render = pos 0;
  last_packet_end = pos 0;
  output = 0;
  phase = 0;
  expected_position = 0;
  position_valid = false;
  late = 0;
  rejected = 0;
  rebased = 0;
  inserted_silence = 0;
  skipped = 0;
  max_send_gap = 0;
}

abbrev pub clock : Clock Unit
clock = record {
  rate = 1000;
  lead = 1;
  samples_per_field = tt;
  field_100ns = tt;
  base_frame = 0;
  last_frame = 0;
  last_call = pos 0;
  last_report = pos 0;
  played = tt;
  offset = tt;
  due = pos 1;
  stale = false;
  stale_reports = 0;
  reanchors = 0;
}

abbrev pub running : Capture Unit
running = record {
  timeline = timeline;
  clock = clock;
  active = true;
  mode_revision = 3;
  reconnect_epoch = 1;
  last_display_frame = 7;
  counters = no_packets;
  converted = 0;
  discarded = 0;
  gated = 0;
  shed = 0;
  write_pos = 0;
}

abbrev pub packet : Packet × Option (ℕ → ℤ)
packet = (
  record {
    frames = 3;
    silent = false;
    discontinuity = false;
    timestamp_error = false;
    position = 0;
    qpc = 0;
  },
  some (λ j. pos j),
)

abbrev pub round : Tick Unit
round = record {
  accepting = true;
  buffer_ms = 2;
  display_frame = 8;
  field_ms = tt;
  mode_revision = 3;
  reconnect_epoch = 1;
  sample_rate = 1000;
  has_buffer = true;
  format_usable = true;
  channels = 2;
  packets = packet ∷ [];
  client_fails = false;
  reset_time = pos 0;
  now = pos 5;
  rebased_phase = none;
  motion = record { skip_to = 0; step_to = λ i. i + 1; mix = λ i a b. a };
}
