-- ===== src/VideoCapture/Tick/Restarts.antt =====
-- A tick that finds no source builds it anew.
use mi_ster_cast.Prelude.{ℕ, ◌≡◌, refl, Bool, true, false, Option, none, some, if◌then◌else◌}
use mi_ster_cast.Prelude.Steps.{Ends}
use mi_ster_cast.VideoCapture.Device.{Device, cleanup_video_capture}
use mi_ster_cast.VideoCapture.Device.Accounts.{cleanup-blank}
use mi_ster_cast.VideoCapture.Start.{StartAnswers, initialize_video_capture}
use mi_ster_cast.VideoCapture.Start.Accounts.{blank}
use mi_ster_cast.VideoCapture.Grab.{VideoState, TickAnswers, with_device, answer_false, rebuild}
use mi_ster_cast.VideoCapture.Tick.{
  take_options, has_source, capture_frame, show_grabbed, tick_source, tick_video_capture,
}
use mi_ster_cast.VideoCapture.Tick.Keeps.{IsValid}

-- The state after a restart, of which the devices satisfy `P`.
pub record Rebuilt (P : Bool → Device → Type 0) (s : VideoState) (ok : Bool) (s' : VideoState)
    : Type 0 where
  pub answer : ok ≡ false
  pub done : Bool
  pub devices : P done s'.device
  pub handle : s'.current.window_handle ≡ s.config.window_handle
  pub has_new : s'.has_new ≡ s.has_new

module _ (P : Bool → Device → Type 0) (n : ℕ) (a : StartAnswers) (s : VideoState)
    (v : IsValid n s) where
  with_device-Rebuilt :
      (r : Option (Bool × Device))
      → Ends P r
      → Ends (Rebuilt P s) (
          answer_false (
            with_device s.display_index s.capture_function
              (record s { device = cleanup_video_capture s.device })
              r))
  unfolding with_device
  with_device-Rebuilt none p = p
  with_device-Rebuilt (some (ok, d)) p = record {
    answer = refl;
    done = ok;
    devices = p;
    handle = refl;
    has_new = refl;
  }

  pub rebuild-Rebuilt :
      Ends P (initialize_video_capture s.config.window_handle a (blank n))
      → Ends (Rebuilt P s) (rebuild a s)
  unfolding rebuild
  rebuild-Rebuilt p =
      with_device-Rebuilt
        (initialize_video_capture s.config.window_handle a (cleanup_video_capture s.device))
        (rw (cleanup-blank n s.device v.owes) p)

-- A tick that finds no source is a restart.
pub tick-restarts :
    (k : TickAnswers) (s : VideoState)
    → has_source (take_options s) ≡ false
    → tick_video_capture k s ≡ rebuild k.restart (take_options s)
unfolding tick_video_capture tick_source
tick-restarts k s e = split (has_source (take_options s)) e
  where
    split :
        (b : Bool)
        → b ≡ false
        → (if b
            then show_grabbed k (capture_frame k (take_options s))
            else rebuild k.restart (take_options s))
          ≡ rebuild k.restart (take_options s)
    split true e = cc e
    split false e = refl
