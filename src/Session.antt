-- ===== src/Session.antt =====
-- The exported interface of the library, MiSTerCastLib.cpp: the options and globals that its calls
-- share, the two workers, and every call as a function on that state. All calls run under
-- `lifecycleMutex`, so they come one after the other.
pub mod Globals
pub mod Calls
pub mod Invariant
pub mod Preserve
pub mod Runs
pub mod Stream
pub mod Crash
pub mod Ticks
mod Tests
use mi_ster_cast.Prelude.{ℕ, Bool, true, false, Option, none, some}
use mi_ster_cast.Prelude.Int.{ℤ}
use mi_ster_cast.Modeline.{Modeline}

-- `StreamOptions` of MiSTerCastLib.h
pub record StreamOptions : Type 0 where
  pub codec : ℕ
  pub nlc_pack : ℕ
  pub near_level : ℕ
  pub rgb_mode : ℕ
  pub mtu : ℕ
  pub auto_reconnect : Bool
  pub verbose : ℕ
  pub allow_oversize_modes : Bool
  pub audio_buffer_ms : ℕ

-- `SourceOptions`; the offsets are INT16, the handle is a pointer-sized number, 0 for the display.
pub record SourceOptions : Type 0 where
  pub syncrefresh : Bool
  pub framedelay : ℕ
  pub display : ℕ
  pub audio : Bool
  pub preview : Bool
  pub alignment : ℕ
  pub cropmode : ℕ
  pub width : ℕ
  pub height : ℕ
  pub xoffset : ℤ
  pub yoffset : ℤ
  pub rotation : ℕ
  pub window_handle : ℕ

-- What `cast_screen` was started with, while its thread exists.
pub record StreamWorker : Type 0 where
  pub target : ℕ
  pub options : StreamOptions
  pub source : SourceOptions
  pub session : ℕ

-- The globals that the calls read and write. A callback and a non-empty target address are named by
-- numbers, `none` is the null pointer. `log_level` is `captureLogLevel` and `diagnosticLogLevel`. `capture_worker` tells whether `captureScreenTask` holds a
-- thread.
pub record App : Type 0 where
  pub initialized : Bool
  pub log_function : Option ℕ
  pub capture_function : Option ℕ
  pub stream_config : StreamOptions
  pub source_config : SourceOptions
  pub current_source : SourceOptions
  pub new_source : SourceOptions
  pub has_new_source : Bool
  pub selected : Modeline
  pub revision : ℕ
  pub output_width : ℕ
  pub output_height : ℕ
  pub display_index : ℕ
  pub captures_allocated : Bool
  pub log_level : ℕ
  pub capture_worker : Bool
  pub stream_worker : Option StreamWorker
  pub stop_capture : Bool
  pub stop_stream : Bool
  pub target : ℕ
  pub session : ℕ

-- How a `TickVideoCapture` ends, as far as the globals see it: without a frame, with a rebuild of the
-- capture, with a frame for the preview, or with an exception.
pub data TickEnd : Type 0 where
  idle : TickEnd
  rebuilt : TickEnd
  delivered : TickEnd
  threw : TickEnd

-- What the system answers during one call: whether `InitializeVideoCapture` succeeds, whether
-- `IsWindow` knows the window, and how the ticks of the call end, in their order.
pub record Env : Type 0 where
  pub capture_starts : Bool
  pub window_exists : Bool
  pub tick : ℕ → TickEnd

-- The pointer to the target address: null, an empty text, or a text.
pub data Target : Type 0 where
  null : Target
  empty : Target
  address : ℕ → Target

-- A call with its arguments, or a round of the capture worker.
pub data Call : Type 0 where
  initialize : Option ℕ → Option ℕ → Call
  shutdown : Call
  start_stream : Target → Call
  stop_stream : Call
  set_stream_options :
      (codec nlc_pack near_level rgb_mode mtu : ℕ) → Bool → (verbose : ℕ) → Bool → Call
  set_audio_buffer_ms : ℕ → Call
  set_modeline : Modeline → Call
  set_source :
      (display : ℕ)
      → Bool
      → Bool
      → (alignment cropmode xcrop ycrop : ℕ) → (xoffset yoffset : ℤ) → (rotation : ℕ) → Call
  set_capture_window : ℕ → Call
  capture_tick : Call
