-- ===== src/VideoCapture/Grab.antt =====
-- The first half of `TickVideoCapture` of VideoCapture.h: the texture of a new frame of the window or
-- the display, and what the tick does when there is none.
use mi_ster_cast.Prelude.{
  ℕ, ◌+◌, min, Bool, true, false, not, ◌&&◌, ◌||◌, Option, none, some, List, [], ◌∷◌, replicate,
  if◌then◌else◌,
}
use mi_ster_cast.Prelude.Int.{ℤ, ltb_ℤ}
use mi_ster_cast.Prelude.Words.{to_u32}
use mi_ster_cast.Frame.{Bitmap}
use mi_ster_cast.Session.{SourceOptions}
use mi_ster_cast.Session.Globals.{first_source}
use mi_ster_cast.VideoCapture.Device.{Device, cleanup_video_capture, Targets}
use mi_ster_cast.VideoCapture.Start.{StartAnswers, is_empty_size, initialize_video_capture}
use mi_ster_cast.VideoCapture.Picture.{Mapped, Screens}

-- The globals of the capture thread. `captures` is `videoCaptures` with its index and previews.
pub record VideoState : Type 0 where
  pub device : Device
  pub display_index : ℕ
  pub capture_function : Option ℕ
  pub config : SourceOptions
  pub current : SourceOptions
  pub new : SourceOptions
  pub has_new : Bool
  pub output_width : ℕ
  pub output_height : ℕ
  pub captures : Option Screens

-- `AcquireNextFrame`: a timeout, another failure, or a frame, of which the texture may be refused.
pub data Acquire : Type 0 where
  timeout : Acquire
  lost : Acquire
  acquired : Bool → Acquire

-- The frame pool: an exception, or the content sizes of the queued frames, the oldest first, whether
-- `Recreate` succeeds, and whether the newest one's texture is given.
pub data Poll : Type 0 where
  threw : Poll
  polled : List (ℤ × ℤ) → Bool → Bool → Poll

-- What the system answers during one tick, and `activeReadIndex` when the tick loads it.
pub record TickAnswers : Type 0 where
  pub restart : StartAnswers
  pub window_exists : Bool
  pub window_iconic : Bool
  pub poll : Poll
  pub acquire : Acquire
  pub texture_width : ℕ
  pub texture_height : ℕ
  pub targets : Targets
  pub surface : Bool
  pub bitmap : Bool
  pub drawn : Bool
  pub mapped : Option Mapped
  pub active : Option ℕ

abbrev pub no_bitmap : Bitmap
no_bitmap = record { width = 0; height = 0; buffer = [] }

-- `new Bitmap[BUFFER_COUNT]`, if there are none yet.
abbrev pub allocate : Option Screens → Screens
allocate none = record { bitmaps = replicate 3 no_bitmap; published = 0; previews = [] }
allocate (some screens) = screens

abbrev pub is_allocated : Option Screens → Bool
is_allocated none = false
is_allocated (some screens) = true

-- The options and the bitmaps that `InitializeVideoCapture` sets beside the devices.
unfoldable pub with_device :
    ℕ → Option ℕ → VideoState → Option (Bool × Device) → Option (Bool × VideoState)
with_device output callback s none = none
with_device output callback s (some (ok, d)) = some (
  ok,
  record s {
    device = d;
    display_index = output;
    capture_function = callback;
    captures = some (allocate s.captures);
    current = record (if is_allocated s.captures then s.current else first_source) {
      window_handle = s.config.window_handle;
    };
  },
)

-- `InitializeVideoCapture`
unfoldable pub initialize_capture :
    ℕ → Option ℕ → StartAnswers → VideoState → Option (Bool × VideoState)
unfolding with_device
initialize_capture output callback a s =
    with_device output callback s (initialize_video_capture s.config.window_handle a s.device)

abbrev pub answer_false : Option (Bool × VideoState) → Option (Bool × VideoState)
answer_false none = none
answer_false (some (ok, s)) = some (false, s)

-- `CleanupVideoCapture(); InitializeVideoCapture(displayIndex, captureFunction); return false;`
unfoldable pub rebuild : StartAnswers → VideoState → Option (Bool × VideoState)
unfolding initialize_capture
rebuild a s = answer_false (
    initialize_capture s.display_index s.capture_function a
      (record s { device = cleanup_video_capture s.device }))

-- A step of the tick: a fault, the end of the tick with false, or the size of a source whose texture
-- the tick holds.
abbrev pub Grab : Type 0
Grab = Option (Option (ℕ × ℕ) × VideoState)

abbrev pub give_up : Option (Bool × VideoState) → Grab
give_up none = none
give_up (some (ok, s)) = some (none, s)

-- The loop that takes the newest frame and closes the older ones.
unfoldable pub newest : Option (ℤ × ℤ) → List (ℤ × ℤ) → Option (ℤ × ℤ)
newest held [] = held
newest held (frame ∷ frames) = newest (some frame) frames

abbrev pub is_same : ℤ → ℤ → Bool
is_same a b = not (ltb_ℤ a b || ltb_ℤ b a)

-- The newest frame, once there is one; its content size caps the texture's size.
unfoldable pub take_window_frame : TickAnswers → Bool → Bool → Option (ℤ × ℤ) → VideoState → Grab
take_window_frame k recreated texture none s = some (none, s)
take_window_frame k recreated texture (some (width, height)) s =
    if is_empty_size (width, height)
    then some (none, s)
    else if not (is_same width (s.device.window_size.0) && is_same height (s.device.window_size.1))
    then (let resized = record s { device = record (s.device) { window_size = (width, height) } } in
        if recreated then some (none, resized) else give_up (rebuild k.restart resized))
    else if texture
    then some (
      some (min k.texture_width (to_u32 width), min k.texture_height (to_u32 height)),
      record s {
        device = record (s.device) { unavailable_logged = false; refs = s.device.refs + 1 };
      },
    )
    else some (none, s)

unfoldable pub poll_window : TickAnswers → Poll → VideoState → Grab
unfolding newest take_window_frame
poll_window k threw s = give_up (rebuild k.restart s)
poll_window k (polled frames recreated texture) s =
    take_window_frame k recreated texture (newest none frames) s

-- The window's branch.
unfoldable pub acquire_window : TickAnswers → VideoState → Grab
unfolding poll_window
acquire_window k s =
    if not k.window_exists || k.window_iconic
    then some (none, record s { device = record (s.device) { unavailable_logged = true } })
    else if s.device.window_pool
    then poll_window k k.poll s
    else none

unfoldable pub take_display_frame : TickAnswers → Acquire → VideoState → Grab
take_display_frame k timeout s = some (none, s)
take_display_frame k lost s = give_up (rebuild k.restart s)
take_display_frame k (acquired texture) s =
    let locked = record (s.device) { have_frame_lock = true; frame_acquired = true } in
    if texture
    then some (
      some (k.texture_width, k.texture_height),
      record s { device = record locked { refs = s.device.refs + 1 } },
    )
    else some (none, record s { device = locked })

-- `ReleaseFrame`, if the flag says that there is one.
unfoldable pub release_frame : Device → Device
release_frame d = record d {
  have_frame_lock = false;
  frame_acquired = if d.have_frame_lock then false else d.frame_acquired;
}

-- The display's branch.
unfoldable pub acquire_display : TickAnswers → VideoState → Grab
unfolding take_display_frame release_frame
acquire_display k s =
    let released = record s { device = release_frame s.device } in
    if s.device.duplication && not released.device.frame_acquired
    then take_display_frame k k.acquire released
    else none
