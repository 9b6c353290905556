-- ===== src/Renderer/Draw.antt =====
-- `draw` and `add_audio_to_recording` of
-- renderer_nogpu.h. The result of a draw is its end, the new state and the commands; `none` is an
-- access out of bounds in the packer.
use mi_ster_cast.Prelude.{
  bit, ℕ, ◌+◌, ◌-◌, ◌*◌, ◌/◌, ◌%◌, ◌^◌, Bool, true, false, ◌&&◌, Option, none, some, List, [], ◌∷◌,
  ◌++◌, ltb, leb, ◌==◌, if◌then◌else◌,
}
use mi_ster_cast.Prelude.Fault.{◌>>=◌}
use mi_ster_cast.Prelude.Words.{u16, u32, u64, sub_u32}
use mi_ster_cast.Frame.{Memory, pack_frame}
use mi_ster_cast.FrameTimes.{register}
use mi_ster_cast.Renderer.{
  Renderer, World, Command, cmd_blit, cmd_audio, Outcome, init_failed, mode_refused, not_packed,
  first_skipped, sent, audio_failed, packer,
}
use mi_ster_cast.Renderer.Switching.{nogpu_init, nogpu_switch_video_mode}

-- The frame number of the draw: realigned after a reconnect, one more, and past the core's.
unfoldable pub next_frame : World → Renderer → ℕ
next_frame w r =
    let frame = u32 ((if w.epoch == r.reconnect_epoch then r.frame else 0) + 1) in
    if ltb frame w.before.frame then u32 (w.before.frame + 1) else frame

-- `!fpga.vgaF1 ^ ((m_frame - fpga.frame) % 2)`, an exclusive or of two bits.
unfoldable pub next_field : World → Renderer → ℕ → ℕ
next_field w r frame =
    if r.current_mode.interlace
    then (bit (w.before.vga_f1 == 0) + sub_u32 frame w.before.frame % 2) % 2
    else 0

-- What `draw` changes before it packs.
unfoldable pub advance : World → Renderer → Renderer
unfolding next_frame next_field
advance w r =
    let frame = next_frame w r in
    record r {
      reconnect_epoch = w.epoch;
      frame = frame;
      field = next_field w r frame;
      stats = record (r.stats) {
        window_start = if r.stats.window_start == 0 then w.draw_ticks else r.stats.window_start;
        last_entry = w.draw_ticks;
        draws = u32 (r.stats.draws + 1);
      };
    }

-- `add_audio_to_recording` with `AudioWritePos`.
unfoldable pub add_audio_to_recording : World → ℕ → Renderer → Renderer × List Command
add_audio_to_recording w pos r =
    if w.after.audio == 0
    then (record r { gated = u64 (r.gated + pos / 2) }, [])
    else (record r { offered = u64 (r.offered + pos / 2) }, cmd_audio (u16 (u32 (pos * 2))) ∷ [])

-- What `draw` does with the answer of `TickAudioCapture`; `none` is the exception.
unfoldable pub take_audio : World → Option ℕ → Renderer → Option (Renderer × List Command)
unfolding add_audio_to_recording
take_audio w none r = none
take_audio w (some pos) r =
    if ltb 0 pos
    then some (
        add_audio_to_recording w pos (record r {
          stats = record (r.stats) { audio_frames = u32 (r.stats.audio_frames + pos / 2) };
        }))
    else some (r, [])

-- The audio part of `draw`.
unfoldable pub draw_audio : World → Renderer → Option (Renderer × List Command)
unfolding take_audio
draw_audio w r = if r.source.audio then take_audio w w.audio r else some (r, [])

-- `nogpu_report_stats`, as far as it resets.
abbrev pub report_stats : World → Renderer → Renderer
report_stats w r = record r {
  stats = record (r.stats) {
    window_start = r.time_exit;
    draws = 0;
    late = 0;
    frameskip = 0;
    audio_frames = 0;
    audio_shed = w.shed;
  };
}

-- The end of `draw`, after the audio.
unfoldable pub finish : World → Renderer → Renderer
finish w r =
    let r' = record r {
      time_blit = w.blit_ticks;
      times = register w.over_period (u64 (r.time_entry + 2 ^ 64 - r.time_exit)) r.times;
      time_exit = w.exit_ticks;
    } in
    if leb 1 r.options.verbose && w.report_due then report_stats w r' else r'

-- The blit's command and what follows the audio.
unfoldable pub after_audio :
    World
    → Option Memory
    → Renderer
    → Option (Renderer × List Command)
    → Outcome × Renderer × List Command
after_audio w fb r none = (audio_failed, r, cmd_blit r.frame r.field fb ∷ [])
after_audio w fb r (some (r', commands)) =
    (sent, finish w r', cmd_blit r.frame r.field fb ∷ commands)

-- `m_stats.late` and `m_stats.frameskip`
unfoldable pub count_blit : World → Renderer → Renderer
count_blit w r = record r {
  stats = record (r.stats) {
    late = if w.is_late then u32 (r.stats.late + 1) else r.stats.late;
    frameskip = if w.after.frameskip == 0 then r.stats.frameskip else u32 (r.stats.frameskip + 1);
  };
}

-- `draw` from the blit on, with the packed buffer.
unfoldable pub blit : World → Option Memory → Renderer → Outcome × Renderer × List Command
unfolding count_blit
blit w fb r = after_audio w fb (count_blit w r) (draw_audio w (count_blit w r))

-- `draw` after the pack, which answers whether there is a frame.
unfoldable pub after_pack :
    World → Bool × Option Memory → Renderer → Outcome × Renderer × List Command
after_pack w (false, fb) r = (not_packed, r, [])
after_pack w (true, fb) r =
    if r.source.syncrefresh && r.first_blit
    then (
      first_skipped,
      record r {
        time_entry = w.entry_ticks;
        time_start = w.entry_ticks;
        time_blit = w.entry_ticks;
        time_exit = w.entry_ticks;
        first_blit = false;
        frame = 0;
      },
      [],
    )
    else blit w fb (record r { time_entry = w.entry_ticks })

-- `draw` in a mode that is in use.
unfoldable pub draw_frame : World → Renderer → Option (Outcome × Renderer × List Command)
draw_frame w r =
    (pack_frame (packer (advance w r)) w.capture (w.buffer (advance w r).field) >>= λ packed.
    some (after_pack w packed (advance w r)))

-- The commands `before` come first.
abbrev pub after :
    List Command
    → Option (Outcome × Renderer × List Command)
    → Option (Outcome × Renderer × List Command)
after before none = none
after before (some (outcome, r, commands)) = some (outcome, r, before ++ commands)

-- `draw` after `nogpu_switch_video_mode`
unfoldable pub draw_switched :
    World → Bool × Renderer × List Command → Option (Outcome × Renderer × List Command)
draw_switched w (true, r, commands) = after commands (draw_frame w r)
draw_switched w (false, r, commands) = some (mode_refused, r, commands)

-- `draw` of a connected renderer.
unfoldable pub draw_connected : World → Renderer → Option (Outcome × Renderer × List Command)
draw_connected w r = draw_switched w (nogpu_switch_video_mode w r)

-- `draw` after `nogpu_init`
unfoldable pub draw_initialized :
    World → Bool × Renderer × List Command → Option (Outcome × Renderer × List Command)
draw_initialized w (true, r, commands) =
    after commands (draw_connected w (record r { initialized = true }))
draw_initialized w (false, r, commands) = some (init_failed, r, commands)

-- `draw`
unfoldable pub draw : World → Renderer → Option (Outcome × Renderer × List Command)
draw w r = if r.initialized then draw_connected w r else draw_initialized w (nogpu_init w r)
