-- ===== src/AudioCapture/Report.antt =====
-- `ReportAudioCapture` of AudioCapture.h, which writes the counters to the log and clears them.
pub mod Blind
pub mod Runs
use mi_ster_cast.Prelude.{
  ℕ, ◌+◌, ◌*◌, ◌≡◌, refl, sym, ap, ◌∙◌, Bool, true, false, not, ◌&&◌, ◌||◌, Option, none, some,
  List, [], ◌∷◌, length, arith, leb, ltb, if◌then◌else◌,
}
use mathlib.Core.Path.{subst}
use mi_ster_cast.Prelude.Int.{ℤ, pos}
use mi_ster_cast.AudioPackets.{Packet, Counters, record_audio_packet, no_packets}
use mi_ster_cast.AudioTimeline.{Timeline, reset, push, rebase_to_now}
use mi_ster_cast.AudioTimeline.Render.{render}
use mi_ster_cast.AudioTimeline.Telemetry.{clear_timeline, Alike, push-Alike, rebase-Alike}
use mi_ster_cast.AudioTimeline.Telemetry.Played.{render-Alike}
use mi_ster_cast.ReceiverClock.{
  Doubles, Clock, reset_clock, observe, on_report, between_reports, settle, due_at, reanchor,
}
use mi_ster_cast.AudioCapture.{
  max_frames, Capture, Tick, take_packet, take_packets, begin_tick, is_behind, demand, send, tick,
}

-- `audioCounters = {}`, which leaves the expected position.
pub clear_counters : Counters → Counters
clear_counters a = record a {
  packets = 0;
  received = 0;
  silent = 0;
  discontinuities = 0;
  timestamp_errors = 0;
  position_gaps = 0;
  position_regressions = 0;
  qpc_regressions = 0;
  first_position = 0;
  last_position = 0;
  first_qpc = 0;
  last_qpc = 0;
  valid_positions = 0;
}

-- `receiverAudioClock.counters = {}`
pub clear_clock : {D : Type 0} → Clock D → Clock D
clear_clock c = record c { stale_reports = 0; reanchors = 0 }

-- The last lines of `ReportAudioCapture`.
pub clear_capture : {D : Type 0} → Capture D → Capture D
unfolding clear_counters clear_clock
clear_capture s = record s {
  timeline = clear_timeline s.timeline;
  clock = clear_clock s.clock;
  counters = clear_counters s.counters;
  converted = 0;
  discarded = 0;
  gated = 0;
}

-- `ReportAudioCapture`, `ms` milliseconds after the last report.
pub report_audio_capture : {D : Type 0} → Bool → ℕ → Capture D → Capture D
unfolding clear_capture
report_audio_capture final ms s = if not final && ltb ms 2000 then s else clear_capture s

module _ {D : Type 0} (ops : Doubles D) where
  -- The head of a tick and its packets.
  abbrev pub taken : Tick D → Capture D → Capture D
  taken k s = take_packets k k.packets (begin_tick ops k s)

  -- The samples that a tick puts into the buffer.
  pub samples_of : Tick D → Capture D → List (ℤ × ℤ)
  samples_of k s =
      if not k.client_fails && k.accepting && k.has_buffer
      then (let (due, ready) = demand ops k (taken k s) in
          (render k.motion k.now due true max_frames ready.timeline).0)
      else []

  -- The stream worker's ticks, each with its answer and its samples; and the same ticks with a report
  -- after each, the given milliseconds after the last one.
  pub run_captures : List (Tick D × ℕ) → Capture D → List (Bool × List (ℤ × ℤ))
  unfolding samples_of
  run_captures [] s = []
  run_captures ((k, ms) ∷ rounds) s =
      ((tick ops k s).0, samples_of k s) ∷ run_captures rounds ((tick ops k s).1)

  pub run_reported : List (Tick D × ℕ) → Capture D → List (Bool × List (ℤ × ℤ))
  unfolding samples_of
  run_reported [] s = []
  run_reported ((k, ms) ∷ rounds) s =
      ((tick ops k s).0, samples_of k s)
      ∷ run_reported rounds (report_audio_capture false ms ((tick ops k s).1))
