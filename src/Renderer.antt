-- ===== src/Renderer.antt =====
-- The stream worker's renderer, `renderer_nogpu` of renderer_nogpu.h: its state, what it sees of
-- the world during one draw, and the commands that it gives to the Groovy client. The doubles of
-- the mode's period and of the frame delay are left out, as nothing that is sent depends on them;
-- the tests of a time against the period are parameters.
pub mod Switching
pub mod Draw
pub mod Invariant
pub mod Preserve
pub mod Sends
pub mod Switch
pub mod Frames
mod Tests
use mi_ster_cast.Prelude.{ℕ, ◌+◌, Bool, Option, ◌==◌, if◌then◌else◌}
use mi_ster_cast.Modeline.{Modeline}
use mi_ster_cast.Frame.{Bitmap, Packer, Memory}
use mi_ster_cast.FrameTimes.{FrameTimes}
use mi_ster_cast.Session.{StreamOptions, SourceOptions}

-- `m_stats` without its timing averages.
pub record Stats : Type 0 where
  pub window_start : ℕ
  pub last_entry : ℕ
  pub draws : ℕ
  pub late : ℕ
  pub frameskip : ℕ
  pub audio_frames : ℕ
  pub audio_shed : ℕ

-- `renderer_nogpu`; `frame` is the int m_frame as a 32-bit word. `offered` and `gated` are the
-- fields of `audioCounters` that it writes, `audio_attached` tells whether it has set `audioBuffer`.
pub record Renderer : Type 0 where
  pub options : StreamOptions
  pub source : SourceOptions
  pub initialized : Bool
  pub first_blit : Bool
  pub reconnect_epoch : ℕ
  pub frame : ℕ
  pub field : ℕ
  pub width : ℕ
  pub height : ℕ
  pub vtotal : ℕ
  pub current_mode : Modeline
  pub mode_revision : ℕ
  pub time_start : ℕ
  pub time_entry : ℕ
  pub time_blit : ℕ
  pub time_exit : ℕ
  pub times : FrameTimes
  pub stats : Stats
  pub audio_attached : Bool
  pub offered : ℕ
  pub gated : ℕ

-- `fpgaStatus`, as far as it is read; `vga_f1`, `frameskip` and `audio` are bytes.
pub record Status : Type 0 where
  pub frame : ℕ
  pub vga_f1 : ℕ
  pub frameskip : ℕ
  pub audio : ℕ

-- One draw's surroundings: the selected modeline, the rate of the mixer, the answers of the client
-- and of the audio capture, the published bitmap and the clock.
pub record World : Type 0 where
  pub pending : Modeline
  pub revision : ℕ
  pub sample_rate : ℕ
  -- what `CmdInit` and `CmdSwitchres` return, 0 for an acknowledgement
  pub init_ret : ℕ
  pub switch_ret : ℕ
  pub epoch : ℕ
  -- `fpga` before the blit and after `WaitSync`
  pub before : Status
  pub after : Status
  -- `getPBufferBlit`, none for the null pointer
  pub buffer : ℕ → Option Memory
  pub capture : Bitmap
  -- `AudioWritePos` after `TickAudioCapture`, none when it failed
  pub audio : Option ℕ
  -- `AudioShedFrames`
  pub shed : ℕ
  pub draw_ticks : ℕ
  pub entry_ticks : ℕ
  pub blit_ticks : ℕ
  pub exit_ticks : ℕ
  -- `get_ms(t) > m_period`
  pub over_period : ℕ → Bool
  pub is_late : Bool
  pub report_due : Bool

-- The calls of the client, in the order in which they are made.
pub data Command : Type 0 where
  configure : (verbose auto_reconnect : ℕ) → Command
  set_nlc : (pack near_level : ℕ) → Command
  cmd_init : (codec sound_rate sound_chan rgb_mode mtu : ℕ) → Command
  cmd_switchres : Modeline → Command
  cmd_blit : (frame field : ℕ) → Option Memory → Command
  cmd_audio : (bytes : ℕ) → Command

-- How a draw ends. After `init_failed`, `mode_refused` and `not_packed` it sleeps and returns;
-- `audio_failed` is the exception that ends the stream.
pub data Outcome : Type 0 where
  init_failed mode_refused not_packed first_skipped sent audio_failed : Outcome

-- `CodecNLC`
abbrev pub codec_nlc : ℕ
codec_nlc = 7

-- What `nogpu_pack_frame` reads of the renderer.
abbrev pub packer : Renderer → Packer
packer r = record {
  rgb_mode = r.options.rgb_mode;
  width = r.width;
  height = r.height;
  interlace = r.current_mode.interlace;
  field = r.field;
}
