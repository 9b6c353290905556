-- ===== src/Session/Globals.antt =====
-- The globals of MiSTerCastLib.cpp when the library is loaded, and what the workers and
-- `InitializeVideoCapture` do to them.
use mi_ster_cast.Prelude.{ℕ, Bool, true, false, Option, none, some, if◌then◌else◌}
use mi_ster_cast.Prelude.Int.{pos}
use mi_ster_cast.Prelude.Double.{finite}
use mi_ster_cast.Modeline.{
  Modeline, Verdict, mode_ok, malformed, over_byte_budget, over_crt_envelope, validate_modeline_for,
  default_mode,
}
use mi_ster_cast.Prelude.{◌&&◌, List, [], ◌∷◌}
use mi_ster_cast.Prelude.Fault.{◌>>=◌}
use mi_ster_cast.Session.{TickEnd, StreamOptions, SourceOptions, App}

abbrev pub is_ok : Verdict → Bool
is_ok mode_ok = true
is_ok _ = false

-- `ValidateModeline`; the verdict is the number that the enum stands for.
pub validate_modeline : Modeline → ℕ → Bool → ℕ
validate_modeline m rgb_mode allow = elim (validate_modeline_for m rgb_mode allow) [
  | mode_ok ↦ 0
  | malformed ↦ 1
  | over_byte_budget ↦ 2
  | over_crt_envelope ↦ 3
]

-- `StreamOptions stream_config = {}`, with the member initializer of the audio buffer
abbrev pub zero_stream : StreamOptions
zero_stream = record {
  codec = 0;
  nlc_pack = 0;
  near_level = 0;
  rgb_mode = 0;
  mtu = 0;
  auto_reconnect = false;
  verbose = 0;
  allow_oversize_modes = false;
  audio_buffer_ms = 40;
}

abbrev pub zero_source : SourceOptions
zero_source = record {
  syncrefresh = false;
  framedelay = 0;
  display = 0;
  audio = false;
  preview = false;
  alignment = 0;
  cropmode = 0;
  width = 0;
  height = 0;
  xoffset = pos 0;
  yoffset = pos 0;
  rotation = 0;
  window_handle = 0;
}

-- `selected_modeline = {}`
abbrev pub zero_mode : Modeline
zero_mode = record {
  pclock = finite (pos 0) 0;
  hactive = 0;
  hbegin = 0;
  hend = 0;
  htotal = 0;
  vactive = 0;
  vbegin = 0;
  vend = 0;
  vtotal = 0;
  interlace = false;
}

-- The globals when the library is loaded.
abbrev pub loaded : App
loaded = record {
  initialized = false;
  log_function = none;
  capture_function = none;
  stream_config = zero_stream;
  source_config = zero_source;
  current_source = zero_source;
  new_source = zero_source;
  has_new_source = false;
  selected = zero_mode;
  revision = 1;
  output_width = 0;
  output_height = 0;
  display_index = 0;
  captures_allocated = false;
  log_level = 0;
  capture_worker = false;
  stream_worker = none;
  stop_capture = false;
  stop_stream = false;
  target = 0;
  session = 0;
}

-- `JoinWorker`: the worker sees its flag and ends.
unfoldable pub join_stream : App → App
join_stream s = record s { stop_stream = true; stream_worker = none }

unfoldable pub join_capture : App → App
join_capture s = record s { stop_capture = true; capture_worker = false }

-- `captureScreenTask = std::make_unique<std::thread>(capture_screen)`
unfoldable pub spawn_capture : App → Option App
spawn_capture s =
    if s.capture_worker
    then none
    else some (record s { stop_capture = false; capture_worker = true })

abbrev pub is_none {ℓ} : {A : Type ℓ} → Option A → Bool
is_none none = true
is_none (some a) = false

-- The defaults of `InitializeVideoCapture`, for the first initialization only.
abbrev pub first_source : SourceOptions
first_source = record zero_source { audio = true; syncrefresh = true; cropmode = 6 }

-- What `InitializeVideoCapture` does to the globals, whether it succeeds or not.
unfoldable pub init_video_capture : ℕ → Option ℕ → App → App
init_video_capture output callback s = record s {
  display_index = output;
  capture_function = callback;
  captures_allocated = true;
  current_source = record (if s.captures_allocated then s.current_source else first_source) {
    window_handle = s.source_config.window_handle;
  };
}

-- `SetSourceOptions`
unfoldable pub publish_source : App → App
publish_source s = record s { new_source = s.source_config; has_new_source = true }

-- The head of `TickVideoCapture`, which takes the published options.
unfoldable pub take_source : App → App
take_source s = record s {
  current_source = if s.has_new_source then s.new_source else s.current_source;
  has_new_source = false;
}

-- `TickVideoCapture` on the globals: a rebuild initializes the capture anew, and a frame is shown to
-- the preview through a pointer that nothing tests. `none` is the call of a null pointer or an
-- exception.
unfoldable pub run_tick : TickEnd → App → Option App
unfolding take_source init_video_capture
run_tick TickEnd.idle s = some (take_source s)
run_tick TickEnd.rebuilt s = some (
    init_video_capture (take_source s).display_index (take_source s).capture_function
      (take_source s))
run_tick TickEnd.delivered s =
    if (take_source s).current_source.preview && is_none (take_source s).capture_function
    then none
    else some (take_source s)
run_tick TickEnd.threw s = none

-- A round of `capture_screen`, which catches the exceptions; its loop ends with one, and
-- `captureScreenTask` still holds the thread.
unfoldable pub capture_round : TickEnd → App → Option App
unfolding run_tick take_source
capture_round TickEnd.threw s = some (take_source s)
capture_round TickEnd.idle s = run_tick TickEnd.idle s
capture_round TickEnd.rebuilt s = run_tick TickEnd.rebuilt s
capture_round TickEnd.delivered s = run_tick TickEnd.delivered s

-- The ticks of `Initialize`, one for each buffer; nothing catches an exception there.
unfoldable pub fill_buffers : List TickEnd → App → Option App
unfolding run_tick
fill_buffers [] s = some s
fill_buffers (tick ∷ ticks) s = (run_tick tick s >>= fill_buffers ticks)

-- The defaults that `Initialize` writes.
abbrev pub default_stream : StreamOptions
default_stream = record {
  codec = 7;
  nlc_pack = 2;
  near_level = 1;
  rgb_mode = 0;
  mtu = 1500;
  auto_reconnect = true;
  verbose = 0;
  allow_oversize_modes = false;
  audio_buffer_ms = 40;
}

unfoldable pub with_defaults : Option ℕ → App → App
with_defaults log s = record s {
  log_function = log;
  source_config = record (s.source_config) { syncrefresh = true; framedelay = 0 };
  stream_config = default_stream;
  selected = default_mode;
  output_width = default_mode.hactive;
  output_height = default_mode.vactive;
}
