-- ===== src/VideoCapture/Tick/Keeps.antt =====
-- What every tick keeps, on every way out.
use mi_ster_cast.Prelude.{
  bit, ℕ, zero, suc, ◌+◌, ◌^◌, ◌≤◌, ◌<◌, ◌≡◌, refl, sym, ap, ◌∙◌, Bool, false, Option, none, some,
  [], ◌∷◌, get_elem?, arith,
}
use mi_ster_cast.Prelude.Steps.{Ends}
use mi_ster_cast.Frame.{Bitmap}
use mi_ster_cast.VideoCapture.Device.{Device, cleanup_video_capture}
use mi_ster_cast.VideoCapture.Device.Accounts.{Owes, IsReady, cleanup-blank}
use mi_ster_cast.VideoCapture.Start.{StartAnswers, initialize_video_capture}
use mi_ster_cast.VideoCapture.Start.Accounts.{loses_device, Started, initialize-Started}
use mi_ster_cast.VideoCapture.Picture.{Screens}
use mi_ster_cast.VideoCapture.Picture.Publish.{IsSized, IsScreens}
use mi_ster_cast.VideoCapture.Grab.{
  VideoState, no_bitmap, allocate, with_device, answer_false, rebuild,
}

-- The state between two ticks, with `lost` references that nothing holds: the devices are in order,
-- the three bitmaps are there, and so are the callback and the size of the output.
pub record IsValid (lost : ℕ) (s : VideoState) : Type 0 where
  pub owes : Owes lost s.device
  pub ready : IsReady s.device
  pub screens : Screens
  pub allocated : s.captures ≡ some screens
  pub kept : IsScreens screens
  pub callback : ℕ
  pub given : s.capture_function ≡ some callback
  pub wide : 0 < s.output_width
  pub width_u16 : s.output_width < 2 ^ 16
  pub tall : 0 < s.output_height
  pub height_u16 : s.output_height < 2 ^ 16

-- A tick that ends without a picture: `n` references were lost before it, and it loses at most one,
-- in a restart.
pub record Idle (n : ℕ) (a : StartAnswers) (captures : Option Screens) (s' : VideoState)
    : Type 0 where
  pub lost : ℕ
  pub no_fewer : n ≤ lost
  pub no_more : lost ≤ n + bit (loses_device a)
  pub valid : IsValid lost s'
  pub same : s'.captures ≡ captures

module _ (n : ℕ) (a : StartAnswers) (s : VideoState) (v : IsValid n s) where
  with_device-Idle :
      (r : Option (Bool × Device))
      → Ends (Started n s.config.window_handle a) r
      → Ends
          (λ ok s'. (ok ≡ false) × Idle n a s.captures s')
          (answer_false (
            with_device s.display_index s.capture_function
              (record s { device = cleanup_video_capture s.device })
              r))
  unfolding with_device
  with_device-Idle none p = p
  with_device-Idle (some (ok, d)) p = (
    refl,
    record {
      lost = n + bit (loses_device a);
      no_fewer = omega arith;
      no_more = omega arith;
      valid = record {
        owes = p.owes;
        ready = p.ready;
        screens = v.screens;
        allocated = ap some (ap allocate v.allocated);
        kept = v.kept;
        callback = v.callback;
        given = v.given;
        wide = v.wide;
        width_u16 = v.width_u16;
        tall = v.tall;
        height_u16 = v.height_u16;
      };
      same = ap some (ap allocate v.allocated) ∙ sym v.allocated;
    },
  )

  pub rebuild-Idle : Ends (λ ok s'. (ok ≡ false) × Idle n a s.captures s') (rebuild a s)
  unfolding rebuild
  rebuild-Idle =
      with_device-Idle
        (initialize_video_capture s.config.window_handle a (cleanup_video_capture s.device))
        (rw (cleanup-blank n s.device v.owes) (initialize-Started n s.config.window_handle a))

-- The new bitmaps are empty.
pub new-IsScreens : IsScreens (allocate none)
new-IsScreens = record { three = refl; index = omega arith; sized = sized }
  where
    sized :
        (j : ℕ) (b : Bitmap)
        → get_elem? (no_bitmap ∷ no_bitmap ∷ no_bitmap ∷ []) j ≡ some b
        → IsSized b
    sized zero b e = ground arith
    sized (suc zero) b e = ground arith
    sized (suc (suc zero)) b e = ground arith
    sized (suc (suc (suc j))) b e = cc e
