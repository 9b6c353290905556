-- ===== src/Session/Preserve.antt =====
-- Each call keeps the invariant.
use mi_ster_cast.Prelude.Fault.{◌>>=◌}
use mi_ster_cast.Prelude.{
  true, none, List, [], ◌∷◌, sym, ℕ, ◌≡◌, refl, Bool, not, ◌&&◌, ◌||◌, Option, some, arith, ltb,
  ◌==◌,
}
use mathlib.Core.Path.{subst}
use mi_ster_cast.Prelude.Int.{ℤ}
use mi_ster_cast.Modeline.{Modeline, validate_modeline_for}
use mi_ster_cast.Modeline.Classify.{IsU16Mode, accepted-IsWellFormed, IsWellFormed}
use mi_ster_cast.Session.{
  TickEnd, StreamOptions, App, Env, Target, null, empty, address, Call, initialize, shutdown,
  start_stream, stop_stream, set_stream_options, set_audio_buffer_ms, set_modeline, set_source,
  set_capture_window, capture_tick,
}
use mi_ster_cast.Session.Globals.{
  is_ok, init_video_capture, with_defaults, spawn_capture, fill_buffers, capture_round,
}
use mi_ster_cast.Session.Calls.{
  is_some, run_initialize, run_shutdown, run_start_stream, run_stop_stream, run_set_stream_options,
  run_set_audio_buffer_ms, run_set_modeline, run_set_source, run_set_capture_window, step,
}
use mi_ster_cast.Session.Invariant.{
  TicksKeep, fill_buffers-keeps, capture_round-keeps, IsOptions, IsValid, IsTyped, Keeps,
  default-IsWellFormed, is_ok-eq, Keeps-if, ready-IsValid, started-IsValid, restarted-IsValid,
  Keeps-spawn,
}

module _ (env : Env) (s : App) (v : IsValid s) where
  run_initialize-Keeps : (log callback : Option ℕ) → Keeps (run_initialize env log callback s)
  unfolding run_initialize spawn_capture init_video_capture with_defaults
  run_initialize-Keeps log callback =
      Keeps-if s.initialized _ _ (λ i. v)
        λ n.
          Keeps-if (not env.capture_starts) _ _ (λ f. ready-IsValid log callback s v)
            λ g.
              started (fill_buffers ticks ready)
                (fill_buffers-keeps ticks ready (ready-IsValid log callback s v))
    where
      ready : App
      ready = init_video_capture 0 callback (with_defaults log s)

      ticks : List TickEnd
      ticks = env.tick 0 ∷ env.tick 1 ∷ env.tick 2 ∷ []

      started :
          (r : Option App)
          → TicksKeep ready r
          → Keeps (r >>= spawn_capture >>= λ t. some (true, record t { initialized = true }))
      started none k = tt
      started (some t) k = Keeps-spawn t.capture_worker _ _ (
          started-IsValid t k.valid (subst IsWellFormed (sym k.selected) default-IsWellFormed)
            (k.allocated refl))

  run_shutdown-Keeps : Keeps (run_shutdown s)
  unfolding run_shutdown
  run_shutdown-Keeps = record {
    options = v.options;
    mode_u16 = v.mode_u16;
    output_wide = v.output_wide;
    output_tall = v.output_tall;
    shaped = λ i. cc;
    capturing = λ i. cc;
    capture_ready = λ c. cc;
    capture_runs = λ c. cc;
    stream_live = λ w e. cc;
    stream_runs = λ w e. cc;
    stream_newest = λ w e. cc;
    stream_options = λ w e. cc;
  }

  run_stop_stream-Keeps : Keeps (run_stop_stream s)
  unfolding run_stop_stream
  run_stop_stream-Keeps = record {
    options = v.options;
    mode_u16 = v.mode_u16;
    output_wide = v.output_wide;
    output_tall = v.output_tall;
    shaped = v.shaped;
    capturing = v.capturing;
    capture_ready = v.capture_ready;
    capture_runs = v.capture_runs;
    stream_live = λ w e. cc;
    stream_runs = λ w e. cc;
    stream_newest = λ w e. cc;
    stream_options = λ w e. cc;
  }

  -- A started stream has the current options and the newest session.
  run_start_stream-Keeps : (t : Target) → Keeps (run_start_stream t s)
  unfolding run_start_stream
  run_start_stream-Keeps null = v
  run_start_stream-Keeps empty = v
  run_start_stream-Keeps (address a) =
      Keeps-if (not s.initialized || is_some s.stream_worker) _ _ (λ r. v)
        λ free.
          Keeps-if
            (not (
              is_ok (
                validate_modeline_for s.selected s.stream_config.rgb_mode
                  s.stream_config.allow_oversize_modes)))
            _ _ (λ r. v)
            λ good. record {
              options = v.options;
              mode_u16 = v.mode_u16;
              output_wide = v.output_wide;
              output_tall = v.output_tall;
              shaped = v.shaped;
              capturing = v.capturing;
              capture_ready = v.capture_ready;
              capture_runs = v.capture_runs;
              stream_live = λ w e. ground arith;
              stream_runs = λ w e. refl;
              stream_newest = λ w e. ground arith;
              stream_options = λ w e. ground (arith, v.options);
            }

  -- Only the options of the next stream change.
  with_options-IsValid :
      (o : StreamOptions) → IsOptions o → IsValid (record s { stream_config = o })
  with_options-IsValid o h = record {
    options = h;
    mode_u16 = v.mode_u16;
    output_wide = v.output_wide;
    output_tall = v.output_tall;
    shaped = v.shaped;
    capturing = v.capturing;
    capture_ready = v.capture_ready;
    capture_runs = v.capture_runs;
    stream_live = v.stream_live;
    stream_runs = v.stream_runs;
    stream_newest = v.stream_newest;
    stream_options = v.stream_options;
  }

  run_set_stream_options-Keeps :
      (codec pack near rgb mtu : ℕ) (auto : Bool) (verbose : ℕ) (allow : Bool)
      → Keeps (run_set_stream_options codec pack near rgb mtu auto verbose allow s)
  unfolding run_set_stream_options
  run_set_stream_options-Keeps codec pack near rgb mtu auto verbose allow =
      with_options-IsValid _ (ground (arith, v.options))

  run_set_audio_buffer_ms-Keeps : (ms : ℕ) → Keeps (run_set_audio_buffer_ms ms s)
  unfolding run_set_audio_buffer_ms
  run_set_audio_buffer_ms-Keeps ms =
      Keeps-if (ltb 200 ms) _ _ (λ r. v)
        λ small.
          with_options-IsValid (record (s.stream_config) { audio_buffer_ms = ms })
            (ground (arith, v.options))

  run_set_modeline-Keeps : (m : Modeline) → IsU16Mode m → Keeps (run_set_modeline m s)
  unfolding run_set_modeline
  run_set_modeline-Keeps m u =
      Keeps-if
        (not (
          is_ok (
            validate_modeline_for m s.stream_config.rgb_mode s.stream_config.allow_oversize_modes)))
        _ _ (λ r. v)
        λ good. record {
          options = v.options;
          mode_u16 = u;
          output_wide = refl;
          output_tall = refl;
          shaped = λ i.
              accepted-IsWellFormed m s.stream_config.rgb_mode s.stream_config.allow_oversize_modes
                (is_ok-eq _ (ground arith));
          capturing = v.capturing;
          capture_ready = v.capture_ready;
          capture_runs = v.capture_runs;
          stream_live = v.stream_live;
          stream_runs = v.stream_runs;
          stream_newest = v.stream_newest;
          stream_options = v.stream_options;
        }

  run_set_source-Keeps :
      (d : ℕ) (a p : Bool) (al c xc yc : ℕ) (xo yo : ℤ) (r : ℕ)
      → Keeps (run_set_source env d a p al c xc yc xo yo r s)
  unfolding run_set_source
  run_set_source-Keeps d a p al c xc yc xo yo r =
      Keeps-if (not (s.display_index == d)) _ _ (λ other. restarted-IsValid s v) (λ same. v)

  run_set_capture_window-Keeps : (h : ℕ) → Keeps (run_set_capture_window env h s)
  unfolding run_set_capture_window
  run_set_capture_window-Keeps h =
      Keeps-if (not s.initialized) _ _ (λ r. v)
        λ live.
          Keeps-if (not (h == 0) && not env.window_exists) _ _ (λ r. v)
            λ known.
              Keeps-if (s.source_config.window_handle == h) _ _ (λ r. v)
                λ other. restarted-IsValid s v

pub step-Keeps : (env : Env) (c : Call) (s : App) → IsTyped c → IsValid s → Keeps (step env c s)
unfolding step
step-Keeps env (initialize log callback) s typed v = run_initialize-Keeps env s v log callback
step-Keeps env shutdown s typed v = run_shutdown-Keeps env s v
step-Keeps env (start_stream t) s typed v = run_start_stream-Keeps env s v t
step-Keeps env stop_stream s typed v = run_stop_stream-Keeps env s v
step-Keeps env (set_stream_options codec pack near rgb mtu auto verbose allow) s typed v =
    run_set_stream_options-Keeps env s v codec pack near rgb mtu auto verbose allow
step-Keeps env (set_audio_buffer_ms ms) s typed v = run_set_audio_buffer_ms-Keeps env s v ms
step-Keeps env (set_modeline m) s typed v = run_set_modeline-Keeps env s v m typed
step-Keeps env (set_source d a p al c xc yc xo yo r) s typed v =
    run_set_source-Keeps env s v d a p al c xc yc xo yo r
step-Keeps env (set_capture_window h) s typed v = run_set_capture_window-Keeps env s v h
step-Keeps env capture_tick s typed v =
    Keeps-if s.capture_worker _ _
      (λ w. ticked (capture_round (env.tick 0) s) (capture_round-keeps (env.tick 0) s v)) (λ n. v)
  where
    ticked : (r : Option App) → TicksKeep s r → Keeps (r >>= λ t. some (true, t))
    ticked none k = tt
    ticked (some t) k = k.valid

pub step-IsValid :
    (env : Env) (c : Call) (s : App) {r : Bool × App}
    → IsTyped c
    → IsValid s
    → step env c s ≡ some r
    → IsValid r.1
step-IsValid env c s typed v e = subst Keeps e (step-Keeps env c s typed v)
