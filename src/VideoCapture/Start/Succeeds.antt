-- ===== src/VideoCapture/Start/Succeeds.antt =====
-- When `InitializeVideoCapture` succeeds, and what a window whose `StartCapture` throws leaves.
use mi_ster_cast.Prelude.{ℕ, ◌≡◌, ◌≢◌, Bool, true, false, not, ◌&&◌, arith}
use mi_ster_cast.Prelude.Steps.{Ends}
use mi_ster_cast.VideoCapture.Device.{Device}
use mi_ster_cast.VideoCapture.Start.{
  StartAnswers, is_empty_size, create_shared, create_duplication, initialize_window_capture,
  initialize_video_capture,
}
use mi_ster_cast.VideoCapture.Start.Accounts.{blank, any, create_device-blank}

-- The calls that both sources share, those of the display, and those of a window up to its session.
abbrev pub has_device : StartAnswers → Bool
has_device a =
    a.desktop && any a.drivers && a.dxgi_device && a.factory && a.d2d_device && a.d2d_context

abbrev pub has_display : StartAnswers → Bool
has_display a = has_device a && a.adapter && a.output && a.output1 && a.duplicate

abbrev pub has_session : StartAnswers → Bool
has_session a =
    has_device a
    && a.window.exists
    && a.window.supported
    && a.window.item
    && a.window.device
    && not (is_empty_size a.window.size)
    && a.window.pool
    && a.window.token
    && a.window.session

-- A session that is not started has its frame pool nevertheless.
pub record WindowStarts (a : StartAnswers) (ok : Bool) (d : Device) : Type 0 where
  pub answer : ok ≡ (has_session a && a.window.start)
  pub pool : has_session a ≡ true → d.window_pool ≡ true
  pub not_started : a.window.start ≡ false → d.window_started ≡ false

pub display-answers :
    (n : ℕ) (a : StartAnswers)
    → Ends (λ ok d. ok ≡ has_display a) (initialize_video_capture 0 a (blank n))
unfolding initialize_video_capture create_shared create_duplication
display-answers n a = ground (arith, create_device-blank n a.drivers)

pub window-answers :
    (n handle : ℕ) (a : StartAnswers)
    → handle ≢ 0
    → Ends (WindowStarts a) (initialize_video_capture handle a (blank n))
unfolding initialize_video_capture create_shared initialize_window_capture
window-answers n handle a e = ground (arith, create_device-blank n a.drivers)
