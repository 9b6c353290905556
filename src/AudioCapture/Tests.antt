-- ===== src/AudioCapture/Tests.antt =====
-- A tick with one packet, over a type of doubles with one value.
use mi_ster_cast.Prelude.{
  refl, none, List, ℕ, ◌+◌, true, false, ◌*◌, ◌≤◌, ◌<◌, ◌^◌, arith, ◌≡◌, [], ◌∷◌,
}
use mi_ster_cast.AudioTimeline.{slot_count}
use mi_ster_cast.AudioTimeline.View.{IsValid}
use mi_ster_cast.AudioTimeline.Reset.{free_slots-Held}
use mi_ster_cast.AudioCapture.{Capture, Tick, demand, max_frames, take_packets, begin_tick, tick}
use mi_ster_cast.AudioCapture.Report.{run_captures, run_reported}
use mi_ster_cast.AudioCapture.Report.Runs.{run_reported_lem}
use mi_ster_cast.AudioCapture.Kept.{Kept, taken-Kept}
use mi_ster_cast.AudioCapture.Bounds.{tick-Sendable}
use mi_ster_cast.Prelude.Int.{ℤ, pos, ◌+ℤ◌, ◌-ℤ◌, ◌*ℤ◌}
use mi_ster_cast.AudioPackets.{no_packets}
use mi_ster_cast.ReceiverClock.{reset_clock, due_at, reanchor, between_reports, settle}
use mi_ster_cast.ReceiverClock.Samples.{whole, whole-IsExact, clock}
use mi_ster_cast.AudioCapture.Demand.{Served, demand-Served}
use mi_ster_cast.AudioCapture.Samples.{no_doubles, timeline, running, packet, round}

tick-Sendable_example :
    (frames : ℕ) × ((tick no_doubles round running).1.write_pos ≡ 2 * frames)
    × (frames ≤ max_frames)
tick-Sendable_example = tick-Sendable no_doubles round running

timeline-IsValid : IsValid timeline
timeline-IsValid = free_slots-Held 4 0 4 (omega arith) (omega arith)

count_small : slot_count 1000 2 < 2 ^ 32
unfolding slot_count
count_small = omega arith

abbrev anew : Tick Unit
anew = record round { mode_revision = 4 }

taken-Kept_example :
    Kept
      (begin_tick no_doubles anew running).timeline
      (take_packets anew (packet ∷ []) (begin_tick no_doubles anew running)).timeline
taken-Kept_example = taken-Kept no_doubles anew running count_small (omega arith) timeline-IsValid

abbrev rounds : List (Tick Unit × ℕ)
rounds = (round, 16) ∷ (anew, 3000) ∷ (round, 2500) ∷ []

run_reported_lem_example :
    run_reported no_doubles rounds running ≡ run_captures no_doubles rounds running
run_reported_lem_example = run_reported_lem no_doubles rounds running

-- A clock over whole numbers, 200 ms after its start without a new report.
abbrev waiting : Capture ℤ
waiting = record {
  timeline = timeline;
  clock = clock;
  active = true;
  mode_revision = 3;
  reconnect_epoch = 1;
  last_display_frame = 5;
  counters = no_packets;
  converted = 0;
  discarded = 0;
  gated = 0;
  shed = 0;
  write_pos = 0;
}

abbrev late_round : Tick ℤ
late_round = record {
  accepting = true;
  buffer_ms = 40;
  display_frame = 5;
  field_ms = pos 16;
  mode_revision = 3;
  reconnect_epoch = 1;
  sample_rate = 48000;
  has_buffer = true;
  format_usable = true;
  channels = 2;
  packets = packet ∷ [];
  client_fails = false;
  reset_time = pos 0;
  now = pos 2000000;
  rebased_phase = none;
  motion = record { skip_to = 0; step_to = λ i. i + 1; mix = λ i a b. a };
}

-- The clock has run 9600 samples ahead and is anchored anew.
late_anchors : (demand whole late_round waiting).0 ≡ pos 960
unfolding demand due_at reanchor between_reports settle reset_clock ◌+ℤ◌ ◌-ℤ◌ ◌*ℤ◌
late_anchors = refl

clock_rate : clock.rate ≡ 48000
unfolding reset_clock
clock_rate = refl

clock_lead : clock.lead ≡ 960
unfolding reset_clock
clock_lead = refl

demand-Served_example :
    Served whole late_round waiting
      (demand whole late_round waiting).0
      (demand whole late_round waiting).1
demand-Served_example =
    demand-Served whole late_round waiting whole-IsExact (λ e. absurd (omega (arith, clock_rate)))
      (omega (arith, clock_lead)) (omega arith)
