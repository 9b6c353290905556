-- ===== src/VideoCapture/Tick.antt =====
-- `TickVideoCapture` of VideoCapture.h with what it calls to recover. The waits, the log lines and
-- the timings are left out; `none` is the use of a null pointer, a write past a buffer, or an
-- `AcquireNextFrame` while a frame is acquired.
pub mod Keeps
pub mod Source
pub mod Shows
pub mod Restarts
pub mod Delivers
pub mod Recovers
pub mod Stalls
pub mod Runs
use mi_ster_cast.Prelude.{
  ℕ, ◌+◌, ◌-◌, min, Bool, true, false, not, ◌&&◌, ◌||◌, Option, none, some, List, [], ◌∷◌,
  replicate, ◌==◌, if◌then◌else◌,
}
use mi_ster_cast.Prelude.Int.{ℤ, ltb_ℤ}
use mi_ster_cast.Prelude.Fault.{◌>>=◌}
use mi_ster_cast.Prelude.Words.{to_u32}
use mi_ster_cast.Prelude.Steps.{◌then_run◌, use_of, attempt}
use mi_ster_cast.Frame.{Bitmap}
use mi_ster_cast.Crop.{Options, crop, output_size}
use mi_ster_cast.Buffers.{buffer_count}
use mi_ster_cast.Session.{SourceOptions}
use mi_ster_cast.Session.Globals.{first_source}
use mi_ster_cast.VideoCapture.Device.{
  Device, Op, cleanup_video_capture, Targets, ensure_scale_targets,
}
use mi_ster_cast.VideoCapture.Start.{
  StartAnswers, exchange, is_empty_size, initialize_video_capture,
}
use mi_ster_cast.VideoCapture.Picture.{Mapped, Screens, publish_picture}
use mi_ster_cast.VideoCapture.Grab.{
  VideoState, Acquire, Poll, TickAnswers, no_bitmap, allocate, is_allocated, with_device,
  initialize_capture, answer_false, rebuild, Grab, give_up, newest, is_same, take_window_frame,
  poll_window, acquire_window, take_display_frame, release_frame, acquire_display,
}

abbrev pub is_mapped : Option Mapped → Bool
is_mapped none = false
is_mapped (some m) = true

-- From `EnsureScaleTargets` to `Map`: the texture is drawn into the scale target and copied into the
-- staging texture. The two local references are released on every way out.
pub read_back : ℕ → ℕ → TickAnswers → Op
read_back width height k =
    ensure_scale_targets width height k.targets
    then_run attempt k.surface (λ d. record d { refs = d.refs + 1 })
    then_run use_of (λ d. d.d2d_context)
    then_run exchange k.bitmap
    then_run (λ d. some (k.drawn, record d { refs = d.refs - 1 }))
    then_run use_of (λ d. d.d3d_context)
    then_run use_of (λ d. d.scale_staging)
    then_run use_of (λ d. d.scale_target)
    then_run attempt (is_mapped k.mapped) (λ d. d)

-- `gpuTex->Release()`
pub release_texture : Device → VideoState → VideoState
release_texture d s = record s { device = record d { refs = d.refs - 1 } }

-- The callback of the preview is called through a pointer.
abbrev pub can_preview : VideoState → Bool
can_preview s = elim s.capture_function [ none ↦ not s.current.preview | some f ↦ true ]

abbrev pub with_screens : VideoState → Option Screens → Option (Bool × VideoState)
with_screens s none = none
with_screens s (some screens) = some (true, record s { captures = some screens })

-- What follows `Map`, with the bitmaps.
pub deliver :
    ℕ → ℕ → Option ℕ → Option Mapped → Option Screens → VideoState → Option (Bool × VideoState)
deliver width height active none captures s = some (false, s)
deliver width height active (some m) none s = none
deliver width height active (some m) (some screens) s =
    if can_preview s
    then with_screens s (publish_picture active m width height s.current.preview screens)
    else none

-- What the crop reads of the options.
abbrev pub crop_options : SourceOptions → Options
crop_options o = record {
  alignment = o.alignment;
  cropmode = o.cropmode;
  width = o.width;
  height = o.height;
  xoffset = o.xoffset;
  yoffset = o.yoffset;
}

-- The size of the picture that the tick makes of a source.
abbrev pub picture_size : ℕ × ℕ → VideoState → ℕ × ℕ
picture_size (source_width, source_height) s =
    output_size s.output_width s.output_height
      (crop (crop_options s.current) s.config.rotation source_width source_height)

-- What follows the read-back.
pub end_tick :
    ℕ → ℕ → TickAnswers → VideoState → Option (Bool × Device) → Option (Bool × VideoState)
unfolding release_texture deliver
end_tick width height k s none = none
end_tick width height k s (some (false, d)) = some (false, release_texture d s)
end_tick width height k s (some (true, d)) =
    deliver width height k.active k.mapped s.captures (release_texture d s)

-- The second half of the tick, with the texture.
pub show : TickAnswers → ℕ × ℕ → VideoState → Option (Bool × VideoState)
unfolding read_back end_tick
show k source s =
    let (width, height) = picture_size source s in
    end_tick width height k s (read_back width height k s.device)

unfoldable pub take_options : VideoState → VideoState
take_options s = record s { current = if s.has_new then s.new else s.current; has_new = false }

pub capture_frame : TickAnswers → VideoState → Grab
unfolding acquire_window acquire_display
capture_frame k s = if s.current.window_handle == 0 then acquire_display k s else acquire_window k s

abbrev pub has_source : VideoState → Bool
has_source s = if s.current.window_handle == 0 then s.device.duplication else s.device.window_pool

pub show_grabbed : TickAnswers → Grab → Option (Bool × VideoState)
unfolding show
show_grabbed k none = none
show_grabbed k (some (none, s)) = some (false, s)
show_grabbed k (some (some source, s)) = show k source s

pub tick_source : TickAnswers → VideoState → Option (Bool × VideoState)
unfolding rebuild capture_frame show_grabbed
tick_source k s = if has_source s then show_grabbed k (capture_frame k s) else rebuild k.restart s

-- `TickVideoCapture`
pub tick_video_capture : TickAnswers → VideoState → Option (Bool × VideoState)
unfolding take_options tick_source
tick_video_capture k s = tick_source k (take_options s)

-- The loop of `capture_screen`: a tick for each answer, until `stopCapture` is set.
pub run_ticks : List TickAnswers → VideoState → Option VideoState
unfolding tick_video_capture
run_ticks [] s = some s
run_ticks (k ∷ ks) s = (tick_video_capture k s >>= λ (ok, s'). run_ticks ks s')
