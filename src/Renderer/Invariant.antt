-- ===== src/Renderer/Invariant.antt =====
-- What holds of the renderer between two draws.
use mi_ster_cast.Prelude.{
  ℕ, ◌+◌, ◌*◌, ◌/◌, ◌≡◌, ◌≢◌, Bool, true, false, Option, none, some, List, [], ◌∷◌, arith,
  if◌then◌else◌, ◌==◌, ◌&&◌, ltb,
}
use mi_ster_cast.Prelude.Fault.{◌>>=◌}
use mi_ster_cast.Prelude.Words.{u16, u32, u64}
use mi_ster_cast.Modeline.{Modeline, mode_ok, validate_modeline_for}
use mi_ster_cast.Modeline.Classify.{IsU16Mode}
use mi_ster_cast.Session.{StreamOptions, SourceOptions}
use mi_ster_cast.Frame.{Memory, pack_frame}
use mi_ster_cast.Renderer.{Renderer, World, Command, Outcome, cmd_audio, first_skipped, packer}
use mi_ster_cast.Renderer.Switching.{new_renderer}
use mi_ster_cast.Renderer.Draw.{
  advance, add_audio_to_recording, take_audio, draw_audio, finish, after_audio, count_blit, blit,
  after_pack, draw_frame, after,
}

-- A mode that the stream's format accepts, with the size of its blit.
pub record IsInUse (options : StreamOptions) (mode : Modeline) (width height : ℕ) : Type 0 where
  pub typed : IsU16Mode mode
  pub accepted : validate_modeline_for mode options.rgb_mode options.allow_oversize_modes ≡ mode_ok
  pub wide : width ≡ mode.hactive
  pub tall : height ≡ (if mode.interlace then mode.vactive / 2 else mode.vactive)

-- The invariant, over the fields that it reads: before the first acknowledged mode the blit is
-- empty, from then on the mode is in use.
pub record Held (options : StreamOptions) (initialized : Bool) (mode : Modeline)
    (revision width height : ℕ) : Type 0 where
  pub waiting : revision ≡ 0 → width * height ≡ 0
  pub running : revision ≢ 0 → IsInUse options mode width height
  pub offline : initialized ≡ false → revision ≡ 0

abbrev pub IsValid : Renderer → Type 0
IsValid r = Held r.options r.initialized r.current_mode r.mode_revision r.width r.height

new_renderer-IsValid : (o : StreamOptions) (s : SourceOptions) → IsValid (new_renderer o s)
new_renderer-IsValid o s = grind arith

IsValid-if : (b : Bool) (x y : Renderer) → IsValid x → IsValid y → IsValid (if b then x else y)
IsValid-if true x y p q = p
IsValid-if false x y p q = q

abbrev Keeps : Option (Renderer × List Command) → Type 0
Keeps none = Unit
Keeps (some result) = IsValid (result.0)

-- A draw that ends leaves a valid renderer.
abbrev pub EndsValid : Option (Outcome × Renderer × List Command) → Type 0
EndsValid none = Unit
EndsValid (some result) = IsValid (result.1)

finish-IsValid : (w : World) (r : Renderer) → IsValid r → IsValid (finish w r)
unfolding finish
finish-IsValid w r v = IsValid-if _ _ _ v v

Keeps-if :
    (b : Bool) (x y : Option (Renderer × List Command))
    → Keeps x
    → Keeps y
    → Keeps (if b then x else y)
Keeps-if true x y p q = p
Keeps-if false x y p q = q

EndsValid-if :
    (b : Bool) (x y : Option (Outcome × Renderer × List Command))
    → EndsValid x
    → EndsValid y
    → EndsValid (if b then x else y)
EndsValid-if true x y p q = p
EndsValid-if false x y p q = q

pub EndsValid-after :
    (before : List Command) (x : Option (Outcome × Renderer × List Command))
    → EndsValid x
    → EndsValid (after before x)
EndsValid-after before none p = p
EndsValid-after before (some result) p = p

add_audio-Keeps :
    (w : World) (pos : ℕ) (r : Renderer) → IsValid r → Keeps (some (add_audio_to_recording w pos r))
unfolding add_audio_to_recording
add_audio-Keeps w pos r v = split (w.after.audio == 0)
  where
    split :
        (b : Bool)
        → Keeps (
            some (
              if b then (record r { gated = u64 (r.gated + pos / 2) }, []) else (
                record r { offered = u64 (r.offered + pos / 2) },
                cmd_audio (u16 (u32 (pos * 2))) ∷ [],
              )))
    split true = v
    split false = v

take_audio-Keeps :
    (w : World) (audio : Option ℕ) (r : Renderer) → IsValid r → Keeps (take_audio w audio r)
unfolding take_audio
take_audio-Keeps w none r v = tt
take_audio-Keeps w (some pos) r v = split (ltb 0 pos)
  where
    counted : Renderer
    counted = record r {
      stats = record (r.stats) { audio_frames = u32 (r.stats.audio_frames + pos / 2) };
    }

    split :
        (b : Bool) → Keeps (if b then some (add_audio_to_recording w pos counted) else some (r, []))
    split true = add_audio-Keeps w pos counted v
    split false = v

draw_audio-Keeps : (w : World) (r : Renderer) → IsValid r → Keeps (draw_audio w r)
unfolding draw_audio
draw_audio-Keeps w r v =
    Keeps-if r.source.audio (take_audio w w.audio r) (some (r, [])) (take_audio-Keeps w w.audio r v)
      v

after_audio-EndsValid :
    (w : World) (fb : Option Memory) (r : Renderer) (o : Option (Renderer × List Command))
    → IsValid r
    → Keeps o
    → EndsValid (some (after_audio w fb r o))
unfolding after_audio
after_audio-EndsValid w fb r none v k = v
after_audio-EndsValid w fb r (some (r', commands)) v k = finish-IsValid w r' k

after_pack-EndsValid :
    (w : World) (packed : Bool × Option Memory) (r : Renderer)
    → IsValid r
    → EndsValid (some (after_pack w packed r))
unfolding after_pack blit count_blit
after_pack-EndsValid w (false, fb) r v = v
after_pack-EndsValid w (true, fb) r v = split (r.source.syncrefresh && r.first_blit)
  where
    entered : Renderer
    entered = record r { time_entry = w.entry_ticks }

    split :
        (b : Bool)
        → EndsValid (
            some (
              if b
              then (
                first_skipped,
                record r {
                  time_entry = w.entry_ticks;
                  time_start = w.entry_ticks;
                  time_blit = w.entry_ticks;
                  time_exit = w.entry_ticks;
                  first_blit = false;
                  frame = 0;
                },
                [],
              )
              else blit w fb entered))
    split true = v
    split false =
        after_audio-EndsValid w fb (count_blit w entered) (draw_audio w (count_blit w entered)) v
          (draw_audio-Keeps w (count_blit w entered) v)

pub draw_frame-EndsValid : (w : World) (r : Renderer) → IsValid r → EndsValid (draw_frame w r)
unfolding draw_frame advance
draw_frame-EndsValid w r v =
    pack_bind (pack_frame (packer (advance w r)) w.capture (w.buffer (advance w r).field))
  where
    pack_bind :
        (o : Option (Bool × Option Memory))
        → EndsValid (o >>= λ packed. some (after_pack w packed (advance w r)))
    pack_bind none = tt
    pack_bind (some packed) = after_pack-EndsValid w packed (advance w r) v
