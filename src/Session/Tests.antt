-- ===== src/Session/Tests.antt =====
-- A session by evaluation, and the theorems at its states.
use mi_ster_cast.Prelude.{
  ℕ, ◌≤◌, ◌<◌, ◌≡◌, refl, true, false, Option, none, some, List, [], ◌∷◌, arith,
}
use mi_ster_cast.Prelude.Int.{pos}
use mi_ster_cast.Modeline.{
  bad_active, bad_horizontal, bad_vertical, frame_bytes, bytes_per_pixel, over_envelope,
  validate_modeline_for, default_mode, buffer_size,
}
use mi_ster_cast.Modeline.Classify.{IsWellFormed, blit_bytes}
use mi_ster_cast.Session.{
  TickEnd, StreamWorker, App, Env, address, Call, initialize, start_stream, set_audio_buffer_ms,
  set_source, capture_tick,
}
use mi_ster_cast.Session.Globals.{loaded, default_stream, zero_source}
use mi_ster_cast.Session.Calls.{run_start_stream, step, run}
use mi_ster_cast.Session.Invariant.{IsOptions, IsValid, loaded-IsValid}
use mi_ster_cast.Session.Preserve.{step-IsValid}
use mi_ster_cast.Session.Runs.{run-IsValid}
use mi_ster_cast.Session.Stream.{streaming, started-fits}
use mi_ster_cast.Session.Crash.{ends_process, terminates_iff, set_source-initialize_terminates}

abbrev working : Env
working = record { capture_starts = true; window_exists = true; tick = λ n. TickEnd.delivered }

abbrev script : List (Env × Call)
script =
    (working, initialize none none)
    ∷ (working, set_audio_buffer_ms 80)
    ∷ (working, set_source 0 true false 0 2 0 0 (pos 0) (pos 0) 0)
    ∷ (working, capture_tick)
    ∷ (working, start_stream (address 7))
    ∷ []

-- The state after `Initialize`.
abbrev ready : App
ready = record loaded {
  initialized = true;
  stream_config = default_stream;
  source_config = record zero_source { syncrefresh = true };
  current_source = record zero_source {
    audio = true;
    syncrefresh = true;
    cropmode = 6;
    window_handle = 0;
  };
  selected = default_mode;
  output_width = 320;
  output_height = 240;
  captures_allocated = true;
  capture_worker = true;
}

initialize_runs : step working (initialize none none) loaded ≡ some (true, ready)
unfolding step
initialize_runs = refl

abbrev stream_target : Option App → Option ℕ
stream_target none = none
stream_target (some s) = elim s.stream_worker [ none ↦ none | some w ↦ some w.target ]

abbrev taken_crop : Option App → Option (ℕ × ℕ)
taken_crop none = none
taken_crop (some s) = some (s.current_source.width, s.current_source.height)

-- The stream runs, and the capture worker crops twice the mode's area.
script_runs :
    (stream_target (run script loaded) ≡ some 7)
    × (taken_crop (run script loaded) ≡ some (640, 480))
unfolding run validate_modeline_for bad_active bad_horizontal bad_vertical frame_bytes
    bytes_per_pixel over_envelope
script_runs = (refl, refl)

step-IsValid_example : IsValid ready
step-IsValid_example =
    step-IsValid working (initialize none none) loaded tt loaded-IsValid initialize_runs

short-run : run ((working, initialize none none) ∷ []) loaded ≡ some ready
unfolding run
short-run = refl

run-IsValid_example :
    IsValid ready
    × ((w : StreamWorker)
        → ready.stream_worker ≡ some w
        → (w.session ≡ ready.session)
          × IsOptions w.options
          × (ready.capture_worker ≡ true)
          × (ready.stop_capture ≡ false))
run-IsValid_example = run-IsValid ((working, initialize none none) ∷ []) (tt, tt) short-run

ready_starts : run_start_stream (address 7) ready ≡ some (true, streaming 7 ready)
unfolding run_start_stream validate_modeline_for bad_active bad_horizontal bad_vertical frame_bytes
    bytes_per_pixel over_envelope
ready_starts = refl

started-fits_example :
    (w : StreamWorker) × ((streaming 7 ready).stream_worker ≡ some w)
    × (IsWellFormed default_mode
        × (0 < blit_bytes default_mode w.options.rgb_mode)
        × (blit_bytes default_mode w.options.rgb_mode ≤ buffer_size))
started-fits_example = started-fits (address 7) ready step-IsValid_example ready_starts

-- The preview is chosen before there is a callback.
abbrev previewed : App
previewed = record loaded {
  new_source = record zero_source { preview = true };
  has_new_source = true;
}

terminates_iff_example :
    (step working (initialize none none) previewed ≡ none
      → ends_process working (initialize none none) previewed ≡ true)
    × (ends_process working (initialize none none) previewed ≡ true
        → step working (initialize none none) previewed ≡ none)
terminates_iff_example = terminates_iff working (initialize none none) previewed

-- Both sides hold there.
previewed_ends : ends_process working (initialize none none) previewed ≡ true
previewed_ends = refl

set_source-initialize_terminates_example :
    run
      ((working, set_source 1 true true 0 0 0 0 (pos 0) (pos 0) 0)
        ∷ (working, initialize none none)
        ∷ [])
      loaded
    ≡ none
set_source-initialize_terminates_example =
    set_source-initialize_terminates working 1 0 0 0 0 0 true true (pos 0) (pos 0) none none loaded
      refl (λ e. omega arith) refl
