-- ===== src/Renderer/Tests.antt =====
-- Draws of a two-by-two mode, by evaluation, and the theorems at concrete inputs.
use mi_ster_cast.Prelude.{
  ◌+◌, ◌*◌, ◌^◌, ◌<◌, ◌≤◌, ◌≡◌, ◌≢◌, refl, true, false, some, List, [], ◌∷◌, arith, inl,
}
use mi_ster_cast.Prelude.Int.{pos}
use mi_ster_cast.Prelude.Double.{finite}
use mi_ster_cast.Modeline.{
  Modeline, mode_ok, validate_modeline_for, bad_active, bad_horizontal, bad_vertical, frame_bytes,
  bytes_per_pixel, over_envelope,
}
use mi_ster_cast.Modeline.Classify.{accepted-IsWellFormed}
use mi_ster_cast.Frame.{Bitmap, Memory}
use mi_ster_cast.Frame.Rows.{IsBytes-of_all}
use mi_ster_cast.Frame.Pack.{RowsPacked}
use mi_ster_cast.Session.{StreamWorker, App, address}
use mi_ster_cast.Session.Calls.{run_start_stream}
use mi_ster_cast.Session.Globals.{zero_stream, zero_source, loaded}
use mi_ster_cast.Session.Invariant as Session_Invariant
use mi_ster_cast.Session.Stream.{streaming}
use mi_ster_cast.Renderer.{
  Renderer, Status, World, Command, cmd_switchres, cmd_blit, cmd_audio, sent, packer,
}
use mi_ster_cast.Renderer.Switching.{new_renderer, init_commands}
use mi_ster_cast.Renderer.Draw.{
  draw, draw_frame, next_frame, next_field, advance, add_audio_to_recording, after,
}
use mi_ster_cast.Renderer.Invariant.{IsInUse, IsValid, EndsValid}
use mi_ster_cast.Renderer.Preserve.{IsWorld, draw-IsValid}
use mi_ster_cast.Renderer.Sends.{CanSend, draw-sends}
use mi_ster_cast.Renderer.Switch.{started, start-draws}
use mi_ster_cast.Renderer.Frames.{next_frame_lem, add_audio_to_recording-whole}

abbrev tiny : Modeline
tiny = record {
  pclock = finite (pos 7) 0;
  hactive = 2;
  hbegin = 3;
  hend = 4;
  htotal = 5;
  vactive = 2;
  vbegin = 3;
  vend = 4;
  vtotal = 5;
  interlace = false;
}

abbrev shot : Bitmap
shot = record {
  width = 2;
  height = 2;
  buffer = 1 ∷ 2 ∷ 3 ∷ 255 ∷ 4 ∷ 5 ∷ 6 ∷ 255 ∷ 7 ∷ 8 ∷ 9 ∷ 255 ∷ 10 ∷ 11 ∷ 12 ∷ 255 ∷ [];
}

abbrev blank : Memory
blank a = 0

abbrev core : Status
core = record { frame = 6; vga_f1 = 1; frameskip = 0; audio = 1 }

abbrev world : World
world = record {
  pending = tiny;
  revision = 3;
  sample_rate = 48000;
  init_ret = 0;
  switch_ret = 0;
  epoch = 1;
  before = core;
  after = core;
  buffer = λ field. some blank;
  capture = shot;
  audio = some 0;
  shed = 0;
  draw_ticks = 100;
  entry_ticks = 110;
  blit_ticks = 120;
  exit_ticks = 130;
  over_period = λ t. false;
  is_late = false;
  report_due = false;
}

-- A connected renderer in the mode of revision 3, which has sent frame 6.
abbrev steady : Renderer
steady = record (new_renderer zero_stream zero_source) {
  initialized = true;
  reconnect_epoch = 1;
  frame = 6;
  width = 2;
  height = 2;
  vtotal = 5;
  current_mode = tiny;
  mode_revision = 3;
}

tiny_accepted : validate_modeline_for tiny 0 false ≡ mode_ok
unfolding validate_modeline_for bad_active bad_horizontal bad_vertical frame_bytes bytes_per_pixel
    over_envelope
tiny_accepted = refl

steady-IsValid : IsValid steady
steady-IsValid = record {
  waiting = λ e. absurd (omega arith);
  running = λ some_. record {
    typed = record { hactive_u16 = omega arith; vactive_u16 = omega arith };
    accepted = tiny_accepted;
    wide = refl;
    tall = refl;
  };
  offline = λ e. cc;
}

world-IsWorld : IsWorld world
world-IsWorld = record {
  typed = record { hactive_u16 = omega arith; vactive_u16 = omega arith };
  counted = λ e. absurd (omega arith);
}

steady_can : CanSend world steady blank
steady_can = record {
  online = refl;
  running = λ e. absurd (omega arith);
  same_mode = refl;
  captured = record {
    wide = omega arith;
    tall = omega arith;
    width_u16 = omega arith;
    height_u16 = omega arith;
    holds = omega arith;
    bytes = IsBytes-of_all shot.buffer (omega arith);
  };
  buffer = refl;
  hearing = inl refl;
  not_skipped = refl;
}

draw-IsValid_example : EndsValid (draw world steady)
draw-IsValid_example = draw-IsValid world steady world-IsWorld steady-IsValid

draw-sends_example :
    (fb' : Memory) × (r' : Renderer) × (rest : List Command) × (draw world steady
      ≡ some (
        sent,
        r',
        cmd_blit
              (next_frame world steady)
              (next_field world steady (next_frame world steady))
              (some fb')
            ∷ rest,
      ))
    × RowsPacked (packer (advance world steady)) shot 0 2 blank fb'
draw-sends_example = draw-sends world steady blank steady-IsValid steady_can

next_frame_lem_example :
    (6 ≤ next_frame world steady)
    × (world.epoch ≡ steady.reconnect_epoch → 6 < next_frame world steady)
    × (world.epoch ≡ steady.reconnect_epoch → 6 ≤ 6 → next_frame world steady ≡ 6 + 1)
    × (world.epoch ≢ steady.reconnect_epoch → world.before.frame ≡ 0 → next_frame world steady ≡ 1)
next_frame_lem_example = next_frame_lem world steady (omega arith) (omega arith)

add_audio_to_recording-whole_example :
    (core.audio ≢ 0
      → (4 * 800 < 2 ^ 16)
        × (add_audio_to_recording world (2 * 800) steady
            ≡ (record steady { offered = 0 + 800 }, cmd_audio (4 * 800) ∷ [])))
    × (core.audio ≡ 0
        → add_audio_to_recording world (2 * 800) steady ≡ (record steady { gated = 0 + 800 }, []))
add_audio_to_recording-whole_example =
    add_audio_to_recording-whole world 800 steady (omega arith) (omega arith) (omega arith)

-- An initialized library with the tiny mode.
abbrev ready : App
ready = record loaded {
  initialized = true;
  selected = tiny;
  revision = 3;
  output_width = 2;
  output_height = 2;
  captures_allocated = true;
  capture_worker = true;
}

ready-IsValid : Session_Invariant.IsValid ready
ready-IsValid = record {
  options = record {
    near_capped = omega arith;
    pack_capped = omega arith;
    audio_capped = omega arith;
  };
  mode_u16 = record { hactive_u16 = omega arith; vactive_u16 = omega arith };
  output_wide = refl;
  output_tall = refl;
  shaped = λ e. accepted-IsWellFormed tiny 0 false tiny_accepted;
  capturing = λ e. refl;
  capture_ready = λ e. refl;
  capture_runs = λ e. refl;
  stream_live = λ w e. cc;
  stream_runs = λ w e. cc;
  stream_newest = λ w e. cc;
  stream_options = λ w e. cc;
}

abbrev worker : StreamWorker
worker = record { target = 9; options = zero_stream; source = zero_source; session = 1 }

ready_starts : run_start_stream (address 9) ready ≡ some (true, streaming 9 ready)
unfolding run_start_stream validate_modeline_for bad_active bad_horizontal bad_vertical frame_bytes
    bytes_per_pixel over_envelope
ready_starts = refl

start-draws_example :
    (worker : StreamWorker) × ((streaming 9 ready).stream_worker ≡ some worker)
    × (draw world (new_renderer worker.options worker.source)
        ≡ after
            (init_commands world (new_renderer worker.options worker.source))
            (after (cmd_switchres tiny ∷ []) (draw_frame world (started world worker))))
    × IsInUse worker.options tiny (started world worker).width (started world worker).height
start-draws_example =
    start-draws (address 9) ready world ready-IsValid ready_starts refl (λ e. absurd (omega arith))
      refl refl
