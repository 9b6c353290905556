-- ===== src/VideoCapture/Tick/Recovers.antt =====
-- A lost display comes back.
use mi_ster_cast.Prelude.{ℕ, ◌^◌, ◌<◌, ◌≡◌, ap, ◌∙◌, Bool, true, false, some}
use mi_ster_cast.Prelude.Steps.{Ends, Ends-both, Ends-result}
use mi_ster_cast.VideoCapture.Device.{Device}
use mi_ster_cast.VideoCapture.Start.{initialize_video_capture}
use mi_ster_cast.VideoCapture.Start.Accounts.{blank, Started, initialize-Started}
use mi_ster_cast.VideoCapture.Start.Succeeds.{has_display, display-answers}
use mi_ster_cast.VideoCapture.Picture.{Mapped}
use mi_ster_cast.VideoCapture.Grab.{VideoState, TickAnswers, rebuild}
use mi_ster_cast.VideoCapture.Tick.{take_options, has_source, tick_video_capture}
use mi_ster_cast.VideoCapture.Tick.Keeps.{IsValid, Idle, rebuild-Idle}
use mi_ster_cast.VideoCapture.Tick.Shows.{take_options-IsValid}
use mi_ster_cast.VideoCapture.Tick.Restarts.{Rebuilt, rebuild-Rebuilt, tick-restarts}
use mi_ster_cast.VideoCapture.Tick.Delivers.{delivering, tick-delivers}

-- A display that was lost, or not there at the start, with no window set: if the calls of a restart
-- succeed in one tick and the display gives a frame whose calls succeed in the next, neither tick uses
-- a null pointer, the first one answers false and the second one answers true.
pub display_recovers :
    (n : ℕ) (k k' : TickAnswers) (m : Mapped) (s : VideoState)
    → m.row_pitch < 2 ^ 32
    → IsValid n s
    → s.config.window_handle ≡ 0
    → has_source (take_options s) ≡ false
    → has_display k.restart ≡ true
    → (s₁ s₂ : VideoState) × (tick_video_capture k s ≡ some (false, s₁))
      × (tick_video_capture (delivering k' m) s₁ ≡ some (true, s₂))
unfolding take_options
display_recovers n k k' m s pitch v handle gone up =
    let u = take_options s in
    let valid = take_options-IsValid n s v in
    let quiet : Bool → VideoState → Type 0 =
      λ ok s'. (ok ≡ false) × Idle n k.restart u.captures s' in
    let (ok, s₁, run, both) =
      Ends-result (λ ok s'. Rebuilt Up u ok s' × quiet ok s') (rebuild k.restart u)
        (Ends-both (Rebuilt Up u) quiet (rebuild k.restart u)
          (rebuild-Rebuilt Up n k.restart u valid (starts s.config.window_handle handle))
          (rebuild-Idle n k.restart u valid)) in
    let r = both.0 in
    let idle = both.1 in
    let there = r.devices.0.display (r.devices.1 ∙ up) handle in
    let (s₂, next) =
      tick-delivers k' m idle.1.lost s₁ pitch idle.1.valid (r.handle ∙ handle) r.has_new there in
    (s₁, s₂, tick-restarts k s gone ∙ run ∙ ap (λ b. some (b, s₁)) idle.0, next)
  where
    Up : Bool → Device → Type 0
    Up ok d = Started n s.config.window_handle k.restart ok d × (ok ≡ has_display k.restart)

    starts :
        (h : ℕ)
        → h ≡ 0
        → Ends
            (λ ok d. Started n h k.restart ok d × (ok ≡ has_display k.restart))
            (initialize_video_capture h k.restart (blank n))
    starts h e = rw e (
        Ends-both (Started n 0 k.restart) (λ ok d. ok ≡ has_display k.restart)
          (initialize_video_capture 0 k.restart (blank n)) (initialize-Started n 0 k.restart)
          (display-answers n k.restart))
