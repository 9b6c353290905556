-- ===== src/Session/Calls.antt =====
-- The calls of MiSTerCastLib.cpp. A call returns its Boolean and the new state; `none` is
-- the end of the process: `std::terminate`, which the destructor of a thread that was not joined
-- calls, an exception that nothing catches, or the call of a null pointer.
use mi_ster_cast.Prelude.{
  ℕ, ◌+◌, ◌*◌, Bool, true, false, not, ◌&&◌, ◌||◌, Option, none, some, ltb, ◌==◌, if◌then◌else◌,
  List, [], ◌∷◌,
}
use mi_ster_cast.Prelude.Fault.{◌>>=◌}
use mi_ster_cast.Prelude.Int.{ℤ}
use mi_ster_cast.Prelude.Words.{u16, u64}
use mi_ster_cast.Modeline.{Modeline, validate_modeline_for}
use mi_ster_cast.Session.{
  App, Env, Target, null, empty, address, Call, initialize, shutdown, start_stream, stop_stream,
  set_stream_options, set_audio_buffer_ms, set_modeline, set_source, set_capture_window,
  capture_tick,
}
use mi_ster_cast.Session.Globals.{
  is_ok, join_stream, join_capture, spawn_capture, init_video_capture, publish_source, fill_buffers,
  capture_round, with_defaults,
}

unfoldable pub run_initialize : Env → Option ℕ → Option ℕ → App → Option (Bool × App)
unfolding with_defaults init_video_capture fill_buffers spawn_capture
run_initialize env log callback s =
    if s.initialized
    then some (true, s)
    else let ready = init_video_capture 0 callback (with_defaults log s) in
      if not env.capture_starts
      then some (false, ready)
      else (fill_buffers (env.tick 0 ∷ env.tick 1 ∷ env.tick 2 ∷ []) ready
          >>= spawn_capture
          >>= λ t. some (true, record t { initialized = true }))

unfoldable pub run_shutdown : App → Option (Bool × App)
unfolding join_stream join_capture
run_shutdown s =
    let t = join_capture (join_stream s) in
    some (true, record t { captures_allocated = false; initialized = false })

abbrev pub is_some {ℓ} : {A : Type ℓ} → Option A → Bool
is_some none = false
is_some (some a) = true

unfoldable pub run_start_stream : Target → App → Option (Bool × App)
run_start_stream null s = some (false, s)
run_start_stream empty s = some (false, s)
run_start_stream (address a) s =
    if not s.initialized || is_some s.stream_worker
    then some (false, s)
    else if not (
        is_ok (
          validate_modeline_for s.selected s.stream_config.rgb_mode
            s.stream_config.allow_oversize_modes))
    then some (false, s)
    else some (
      true,
      record s {
        target = a;
        stop_stream = false;
        session = u64 (s.session + 1);
        stream_worker = some (record {
          target = a;
          options = s.stream_config;
          source = s.source_config;
          session = u64 (s.session + 1);
        });
      },
    )

unfoldable pub run_stop_stream : App → Option (Bool × App)
unfolding join_stream
run_stop_stream s = some (true, join_stream s)

unfoldable pub run_set_stream_options :
    ℕ → ℕ → ℕ → ℕ → ℕ → Bool → ℕ → Bool → App → Option (Bool × App)
run_set_stream_options codec nlc_pack near_level rgb_mode mtu auto_reconnect verbose allow s =
    some (
      true,
      record s {
        stream_config = record (s.stream_config) {
          codec = codec;
          nlc_pack = if nlc_pack == 2 then 2 else 1;
          near_level = if ltb 3 near_level then 3 else near_level;
          rgb_mode = rgb_mode;
          mtu = mtu;
          auto_reconnect = auto_reconnect;
          verbose = verbose;
          allow_oversize_modes = allow;
        };
        log_level = verbose;
      },
    )

unfoldable pub run_set_audio_buffer_ms : ℕ → App → Option (Bool × App)
run_set_audio_buffer_ms ms s =
    if ltb 200 ms
    then some (false, s)
    else some (true, record s { stream_config = record (s.stream_config) { audio_buffer_ms = ms } })

unfoldable pub run_set_modeline : Modeline → App → Option (Bool × App)
run_set_modeline m s =
    if not (
      is_ok (validate_modeline_for m s.stream_config.rgb_mode s.stream_config.allow_oversize_modes))
    then some (false, s)
    else some (
      true,
      record s {
        selected = m;
        revision = u64 (s.revision + 1);
        output_width = m.hactive;
        output_height = m.vactive;
      },
    )

-- `RestartVideoCapture`
pub restart_video_capture : Env → App → Option (Bool × App)
unfolding join_capture init_video_capture publish_source spawn_capture
restart_video_capture env s =
    let t = join_capture s in
    let u = publish_source (init_video_capture t.source_config.display t.capture_function t) in
    (spawn_capture u >>= λ v. some (env.capture_starts, v))

-- The crop of the modes X1 to X5, a multiple of the modeline's active area.
pub crop_size : ℕ → ℕ → ℕ → Modeline → ℕ × ℕ
crop_size cropmode xcrop ycrop m =
    if cropmode == 1
    then (m.hactive, m.vactive)
    else if cropmode == 2
    then (u16 (m.hactive * 2), u16 (m.vactive * 2))
    else if cropmode == 3
    then (u16 (m.hactive * 3), u16 (m.vactive * 3))
    else if cropmode == 4
    then (u16 (m.hactive * 4), u16 (m.vactive * 4))
    else if cropmode == 5
    then (u16 (m.hactive * 5), u16 (m.vactive * 5))
    else (xcrop, ycrop)

unfoldable pub run_set_source :
    Env → ℕ → Bool → Bool → ℕ → ℕ → ℕ → ℕ → ℤ → ℤ → ℕ → App → Option (Bool × App)
unfolding crop_size restart_video_capture publish_source
run_set_source env display audio preview alignment cropmode xcrop ycrop xoffset yoffset rotation s =
    let t = record s {
      source_config = record (s.source_config) {
        display = display;
        audio = audio;
        preview = preview;
        alignment = alignment;
        cropmode = cropmode;
        width = (crop_size cropmode xcrop ycrop s.selected).0;
        height = (crop_size cropmode xcrop ycrop s.selected).1;
        xoffset = xoffset;
        yoffset = yoffset;
        rotation = rotation;
      };
    } in
    if not (t.display_index == display)
    then (restart_video_capture env t >>= λ r. some (true, r.1))
    else some (true, publish_source t)

unfoldable pub run_set_capture_window : Env → ℕ → App → Option (Bool × App)
unfolding restart_video_capture
run_set_capture_window env handle s =
    if not s.initialized
    then some (false, s)
    else if not (handle == 0) && not env.window_exists
    then some (false, s)
    else if s.source_config.window_handle == handle
    then some (true, s)
    else (restart_video_capture env
          (record s { source_config = record (s.source_config) { window_handle = handle } })
        >>= λ r. some (true, r.1))

-- One call of the interface, or one round of the capture worker.
unfoldable pub step : Env → Call → App → Option (Bool × App)
unfolding run_initialize run_shutdown run_start_stream run_stop_stream run_set_stream_options
    run_set_audio_buffer_ms run_set_modeline run_set_source run_set_capture_window capture_round
step env (initialize log callback) s = run_initialize env log callback s
step env shutdown s = run_shutdown s
step env (start_stream t) s = run_start_stream t s
step env stop_stream s = run_stop_stream s
step env (set_stream_options codec pack near rgb mtu auto verbose allow) s =
    run_set_stream_options codec pack near rgb mtu auto verbose allow s
step env (set_audio_buffer_ms ms) s = run_set_audio_buffer_ms ms s
step env (set_modeline m) s = run_set_modeline m s
step env (set_source d a p al c xc yc xo yo r) s = run_set_source env d a p al c xc yc xo yo r s
step env (set_capture_window h) s = run_set_capture_window env h s
step env capture_tick s =
    if s.capture_worker
    then (capture_round (env.tick 0) s >>= λ t. some (true, t))
    else some (true, s)

-- A client's calls in order.
unfoldable pub run : List (Env × Call) → App → Option App
unfolding step
run [] s = some s
run ((env, c) ∷ calls) s = (step env c s >>= λ r. run calls r.1)
