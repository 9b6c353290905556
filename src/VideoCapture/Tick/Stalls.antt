-- ===== src/VideoCapture/Tick/Stalls.antt =====
-- A window whose session was created but not started.
use mi_ster_cast.Prelude.{
  ℕ, ◌≡◌, ◌≢◌, refl, ap, ◌∙◌, Bool, true, false, some, List, [], ◌∷◌, map, arith,
}
use mi_ster_cast.Prelude.Steps.{Ends-result}
use mi_ster_cast.VideoCapture.Device.{Device}
use mi_ster_cast.VideoCapture.Start.Succeeds.{has_session, WindowStarts, window-answers}
use mi_ster_cast.VideoCapture.Tick.Keeps.{IsValid}
use mi_ster_cast.VideoCapture.Tick.Shows.{take_options-IsValid}
use mi_ster_cast.VideoCapture.Tick.Restarts.{Rebuilt, rebuild-Rebuilt, tick-restarts}
use mi_ster_cast.VideoCapture.Grab.{
  rebuild, VideoState, TickAnswers, Poll, newest, acquire_window, poll_window, take_window_frame,
}
use mi_ster_cast.VideoCapture.Tick.{
  take_options, has_source, capture_frame, show_grabbed, tick_source, tick_video_capture, run_ticks,
}

-- Answers to a tick while the window is there and its pool has no frame.
abbrev pub quiet : TickAnswers → TickAnswers
quiet k = record k { window_exists = true; window_iconic = false; poll = Poll.polled [] true true }

quiet_source :
    (k : TickAnswers) (s : VideoState)
    → s.current.window_handle ≢ 0
    → s.device.window_pool ≡ true
    → tick_source (quiet k) s ≡ some (false, s)
unfolding tick_source capture_frame acquire_window poll_window take_window_frame show_grabbed newest
quiet_source k s handle pool = ground (arith, handle, pool)

quiet_options : (s : VideoState) → s.has_new ≡ false → take_options s ≡ s
unfolding take_options
quiet_options s h = ground (arith, h)

quiet_tick :
    (k : TickAnswers) (s : VideoState)
    → s.has_new ≡ false
    → s.current.window_handle ≢ 0
    → s.device.window_pool ≡ true
    → tick_video_capture (quiet k) s ≡ some (false, s)
unfolding tick_video_capture
quiet_tick k s old handle pool =
    ap (tick_source (quiet k)) (quiet_options s old) ∙ quiet_source k s handle pool

quiet_run :
    (ks : List TickAnswers) (s : VideoState)
    → s.has_new ≡ false
    → s.current.window_handle ≢ 0
    → s.device.window_pool ≡ true
    → run_ticks (map quiet ks) s ≡ some s
unfolding run_ticks
quiet_run [] s old handle pool = refl
quiet_run (k ∷ ks) s old handle pool =
    rw (quiet_tick k s old handle pool) (quiet_run ks s old handle pool)

-- A window is to be captured and a tick finds no source for it. If the restart comes as far as the
-- session and its `StartCapture` throws, the tick leaves the frame pool of a session that is not
-- started. While that pool has no frame, and the window is there, no later tick is a restart: every
-- run of such ticks ends in the very same state.
pub window_stalls :
    (n : ℕ) (k : TickAnswers) (s : VideoState)
    → IsValid n s
    → s.config.window_handle ≢ 0
    → has_source (take_options s) ≡ false
    → has_session k.restart ≡ true
    → k.restart.window.start ≡ false
    → (s₁ : VideoState) × (tick_video_capture k s ≡ some (false, s₁))
      × (s₁.device.window_started ≡ false)
      × ((ks : List TickAnswers) → run_ticks (map quiet ks) s₁ ≡ some s₁)
unfolding take_options
window_stalls n k s v handle gone session throws =
    let u = take_options s in
    let valid = take_options-IsValid n s v in
    let (ok, s₁, run, r) = Ends-result (Rebuilt Half u) (rebuild k.restart u) (
      rebuild-Rebuilt Half n k.restart u valid
        (window-answers n s.config.window_handle k.restart handle)) in
    (
      s₁,
      tick-restarts k s gone ∙ run ∙ ap (λ b. some (b, s₁)) r.answer,
      r.devices.not_started (ground (arith, throws, session)),
      λ ks. quiet_run ks s₁ r.has_new (rw r.handle handle) (r.devices.pool session),
    )
  where
    Half : Bool → Device → Type 0
    Half ok d = WindowStarts k.restart ok d
