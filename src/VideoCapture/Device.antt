-- ===== src/VideoCapture/Device.antt =====
-- The globals of VideoCapture.h that hold the capture devices, `CleanupVideoCapture` and
-- `EnsureScaleTargets`. A pointer is a Boolean, true if it is not null; `refs` is the number of
-- references to COM objects that the code has been given and has not released.
pub mod Accounts
pub mod Succeeds
use mi_ster_cast.Prelude.{
  bit, ℕ, ◌+◌, ◌-◌, Bool, true, false, ◌&&◌, Option, none, some, ◌==◌, if◌then◌else◌,
}
use mi_ster_cast.Prelude.Int.{ℤ, pos}
use mi_ster_cast.Prelude.Steps.{◌then_run◌, use_of, attempt}

-- The WinRT objects release themselves. `window_started` tells whether `StartCapture` was called on
-- the session. `frame_acquired` is the duplication's own state: a frame is acquired and not released.
pub record Device : Type 0 where
  pub d3d_device : Bool
  pub d3d_context : Bool
  pub duplication : Bool
  pub d2d_factory : Bool
  pub d2d_device : Bool
  pub d2d_context : Bool
  pub scale_target : Bool
  pub scale_bitmap : Bool
  pub scale_staging : Bool
  pub scale_width : ℕ
  pub scale_height : ℕ
  pub have_frame_lock : Bool
  pub frame_acquired : Bool
  pub window_item : Bool
  pub window_device : Bool
  pub window_pool : Bool
  pub window_token : Bool
  pub window_session : Bool
  pub window_started : Bool
  pub window_size : ℤ × ℤ
  pub active_window : ℕ
  pub unavailable_logged : Bool
  pub refs : ℕ

-- The globals before anything was built.
abbrev pub no_device : Device
no_device = record {
  d3d_device = false;
  d3d_context = false;
  duplication = false;
  d2d_factory = false;
  d2d_device = false;
  d2d_context = false;
  scale_target = false;
  scale_bitmap = false;
  scale_staging = false;
  scale_width = 0;
  scale_height = 0;
  have_frame_lock = false;
  frame_acquired = false;
  window_item = false;
  window_device = false;
  window_pool = false;
  window_token = false;
  window_session = false;
  window_started = false;
  window_size = (pos 0, pos 0);
  active_window = 0;
  unavailable_logged = false;
  refs = 0;
}

abbrev pub Op : Type 0
Op = Device → Option (Bool × Device)

-- `ReleaseScaleTargets`
pub release_scale_targets : Device → Device
release_scale_targets d = record d {
  scale_bitmap = false;
  scale_target = false;
  scale_staging = false;
  scale_width = 0;
  scale_height = 0;
  refs = d.refs - (bit d.scale_bitmap + bit d.scale_target + bit d.scale_staging);
}

-- The releases at the end of `CleanupVideoCapture`; without the duplication no frame is acquired.
pub release_devices : Device → Device
release_devices d = record d {
  d2d_context = false;
  d2d_device = false;
  d2d_factory = false;
  duplication = false;
  frame_acquired = false;
  d3d_context = false;
  d3d_device = false;
  have_frame_lock = false;
  refs =
      d.refs
      - (bit d.d2d_context
          + bit d.d2d_device
          + bit d.d2d_factory
          + bit d.duplication
          + bit d.d3d_context
          + bit d.d3d_device);
}

-- The window session's part. A `Close` that throws changes nothing of it.
abbrev pub drop_window : Device → Device
drop_window d = record d {
  window_token = false;
  window_session = false;
  window_started = false;
  window_pool = false;
  window_item = false;
  window_device = false;
  window_size = (pos 0, pos 0);
  active_window = 0;
  unavailable_logged = false;
}

-- `CleanupVideoCapture`
pub cleanup_video_capture : Device → Device
unfolding release_scale_targets release_devices
cleanup_video_capture d = release_devices (release_scale_targets (drop_window d))

-- What Direct3D and Direct2D answer to `EnsureScaleTargets`.
pub record Targets : Type 0 where
  pub target : Bool
  pub staging : Bool
  pub surface : Bool
  pub bitmap : Bool

-- `CreateTexture2D` twice, the surface of the target, and its bitmap; the surface is released before
-- the result of the last call is tested.
pub create_scale_targets : ℕ → ℕ → Targets → Op
create_scale_targets width height a =
    use_of (λ d. d.d3d_device)
    then_run attempt a.target (λ d. record d { scale_target = true; refs = d.refs + 1 })
    then_run attempt a.staging (λ d. record d { scale_staging = true; refs = d.refs + 1 })
    then_run attempt a.surface (λ d. record d { refs = d.refs + 1 })
    then_run use_of (λ d. d.d2d_context)
    then_run (λ d. some (
      a.bitmap,
      record d {
        scale_bitmap = if a.bitmap then true else d.scale_bitmap;
        refs = d.refs + bit a.bitmap - 1;
      },
    ))
    then_run (λ d. some (true, record d { scale_width = width; scale_height = height }))

-- `EnsureScaleTargets`
pub ensure_scale_targets : ℕ → ℕ → Targets → Op
unfolding create_scale_targets release_scale_targets
ensure_scale_targets width height a d =
    if d.scale_target && d.scale_width == width && d.scale_height == height
    then some (true, d)
    else create_scale_targets width height a (release_scale_targets d)
