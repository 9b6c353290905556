-- ===== src/AudioCapture/Report/Runs.antt =====
-- Ticks with and without reports.
use mi_ster_cast.Prelude.Steps.{both}
use mi_ster_cast.Prelude.{
  ℕ, ◌≡◌, refl, sym, ap, ◌∙◌, Bool, true, false, not, ◌&&◌, List, [], ◌∷◌, ltb, if◌then◌else◌,
}
use mi_ster_cast.Prelude.Int.{ℤ}
use mi_ster_cast.AudioTimeline.Render.{render}
use mi_ster_cast.AudioTimeline.Telemetry.{clear_timeline}
use mi_ster_cast.AudioTimeline.Telemetry.Played.{render-Alike}
use mi_ster_cast.ReceiverClock.{Doubles}
use mi_ster_cast.AudioCapture.{max_frames, Capture, Tick, begin_tick, demand, send, tick}
use mi_ster_cast.AudioCapture.Report.{
  clear_clock, clear_capture, report_audio_capture, taken, samples_of, run_captures, run_reported,
}
use mi_ster_cast.AudioCapture.Report.Blind.{
  Same, Same-step, take_packets-Same, begin_tick-blind, demand-blind, send-demand-blind, Demands,
}

module _ {D : Type 0} (ops : Doubles D) where
  taken-Same : (k : Tick D) (s s' : Capture D) → Same s s' → Same (taken ops k s) (taken ops k s')
  taken-Same k s s' e =
      take_packets-Same k k.packets (begin_tick ops k s) (begin_tick ops k s')
        (Same-step (begin_tick ops k) (begin_tick-blind ops k) s s' e)

  tick-Same :
      (k : Tick D) (s s' : Capture D)
      → Same s s'
      → ((tick ops k s).0 ≡ (tick ops k s').0) × Same (tick ops k s).1 (tick ops k s').1
  unfolding tick
  tick-Same k s s' e = split k.client_fails (k.accepting && k.has_buffer)
    where
      after : Capture D → Bool → Bool → Bool × Capture D
      after t fails sends =
          if fails
          then (false, t)
          else if sends
          then (true, send ops k (demand ops k t))
          else (true, t)

      split :
          (fails sends : Bool)
          → ((after (taken ops k s) fails sends).0 ≡ (after (taken ops k s') fails sends).0)
            × Same (after (taken ops k s) fails sends).1 (after (taken ops k s') fails sends).1
      split true sends = (refl, taken-Same k s s' e)
      split false true = (
        refl,
        Same-step (λ x. send ops k (demand ops k x)) (send-demand-blind ops k) (taken ops k s)
            (taken ops k s') (taken-Same k s s' e),
      )
      split false false = (refl, taken-Same k s s' e)

  demand-Demands :
      (k : Tick D) (s s' : Capture D) → Same s s' → Demands (demand ops k s) (demand ops k s')
  demand-Demands k s s' e = (
    (demand-blind ops k s).0 ∙ ap (λ x. (demand ops k x).0) e ∙ sym ((demand-blind ops k s').0),
    Same-step (λ x. (demand ops k x).1) (λ x. (demand-blind ops k x).1) s s' e,
  )

  rendered_lem :
      (k : Tick D) (r r' : ℤ × Capture D)
      → Demands r r'
      → (render k.motion k.now r.0 true max_frames r.1.timeline).0
        ≡ (render k.motion k.now r'.0 true max_frames r'.1.timeline).0
  rendered_lem k r r' d =
      (render-Alike k.motion k.now r.0 true max_frames r.1.timeline r'.1.timeline
        (ap (λ x. x.timeline) d.1)).0
      ∙ ap (λ due. (render k.motion k.now due true max_frames r'.1.timeline).0) d.0

  samples_of-Same :
      (k : Tick D) (s s' : Capture D) → Same s s' → samples_of ops k s ≡ samples_of ops k s'
  unfolding samples_of
  samples_of-Same k s s' e =
      ap (λ l. if not k.client_fails && k.accepting && k.has_buffer then l else [])
        (rendered_lem k (demand ops k (taken ops k s)) (demand ops k (taken ops k s'))
          (demand-Demands k (taken ops k s) (taken ops k s') (taken-Same k s s' e)))

  report-Same : (final : Bool) (ms : ℕ) (s : Capture D) → Same (report_audio_capture final ms s) s
  unfolding report_audio_capture clear_capture clear_clock clear_timeline
  report-Same final ms s = split (not final && ltb ms 2000)
    where
      split : (early : Bool) → Same (if early then s else clear_capture s) s
      split true = refl
      split false = refl

  runs-Same :
      (rounds : List (Tick D × ℕ)) (s s' : Capture D)
      → Same s s'
      → run_reported ops rounds s ≡ run_captures ops rounds s'
  unfolding run_captures run_reported
  runs-Same [] s s' e = refl
  runs-Same ((k, ms) ∷ rounds) s s' e =
      both (λ r rest. r ∷ rest)
        (both (λ ok samples. (ok, samples)) (tick-Same k s s' e).0 (samples_of-Same k s s' e))
        (runs-Same rounds _ _ (report-Same false ms (tick ops k s).1 ∙ (tick-Same k s s' e).1))

  -- `ReportAudioCapture` after each tick, however long after the last report and so whether it clears
  -- the counters or not, changes nothing of what any later tick answers and of the samples that it
  -- puts into the buffer.
  pub run_reported_lem :
      (rounds : List (Tick D × ℕ)) (s : Capture D)
      → run_reported ops rounds s ≡ run_captures ops rounds s
  run_reported_lem rounds s = runs-Same rounds s s refl
