-- ===== src/Renderer/Switching.antt =====
-- The constructor, `nogpu_init` and `nogpu_switch_video_mode` of renderer_nogpu.h. A result is the
-- answer, the new state and the commands.
use mi_ster_cast.Prelude.{
  bit, ℕ, ◌/◌, Bool, true, false, not, ◌&&◌, ◌||◌, List, [], ◌∷◌, ◌++◌, ◌==◌, if◌then◌else◌,
}
use mi_ster_cast.Modeline.{validate_modeline_for}
use mi_ster_cast.FrameTimes.{no_times}
use mi_ster_cast.Session.{StreamOptions, SourceOptions}
use mi_ster_cast.Session.Globals.{zero_mode, is_ok}
use mi_ster_cast.Renderer.{
  Stats, Renderer, World, Command, configure, set_nlc, cmd_init, cmd_switchres, codec_nlc,
}

abbrev pub no_stats : Stats
no_stats = record {
  window_start = 0;
  last_entry = 0;
  draws = 0;
  late = 0;
  frameskip = 0;
  audio_frames = 0;
  audio_shed = 0;
}

-- The constructor.
abbrev pub new_renderer : StreamOptions → SourceOptions → Renderer
new_renderer options source = record {
  options = options;
  source = source;
  initialized = false;
  first_blit = true;
  reconnect_epoch = 0;
  frame = 0;
  field = 0;
  width = 0;
  height = 0;
  vtotal = 0;
  current_mode = zero_mode;
  mode_revision = 0;
  time_start = 0;
  time_entry = 0;
  time_blit = 0;
  time_exit = 0;
  times = no_times;
  stats = no_stats;
  audio_attached = false;
  offered = 0;
  gated = 0;
}

-- The rates that the client takes; any other turns the sound off.
abbrev pub is_sound_rate : ℕ → Bool
is_sound_rate rate = rate == 22050 || rate == 44100 || rate == 48000

abbrev pub init_commands : World → Renderer → List Command
init_commands w r =
    let sound = r.source.audio && is_sound_rate w.sample_rate in
    configure r.options.verbose (bit r.options.auto_reconnect)
    ∷ ((if r.options.codec == codec_nlc
          then set_nlc r.options.nlc_pack r.options.near_level ∷ []
          else [])
        ++ (cmd_init r.options.codec (if sound then w.sample_rate else 0) (if sound then 2 else 0)
              r.options.rgb_mode r.options.mtu
            ∷ []))

-- `nogpu_init`
unfoldable pub nogpu_init : World → Renderer → Bool × Renderer × List Command
nogpu_init w r =
    let reset = record r { current_mode = zero_mode } in
    if w.init_ret == 0
    then (true, record reset { audio_attached = true }, init_commands w r)
    else (false, reset, init_commands w r)

-- `nogpu_switch_video_mode`
unfoldable pub nogpu_switch_video_mode : World → Renderer → Bool × Renderer × List Command
nogpu_switch_video_mode w r =
    if w.revision == r.mode_revision
    then (true, r, [])
    else if not
        (is_ok (validate_modeline_for w.pending r.options.rgb_mode r.options.allow_oversize_modes))
    then (false, r, [])
    else if not (w.switch_ret == 0)
    then (false, r, cmd_switchres w.pending ∷ [])
    else (
      true,
      record r {
        current_mode = w.pending;
        mode_revision = w.revision;
        width = w.pending.hactive;
        height = if w.pending.interlace then w.pending.vactive / 2 else w.pending.vactive;
        vtotal = w.pending.vtotal;
        field = 0;
      },
      cmd_switchres w.pending ∷ [],
    )
