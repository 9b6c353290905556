-- ===== src/Renderer/Frames.antt =====
-- The numbers of a draw: its frame, its field, the bytes of its audio.
use mi_ster_cast.Prelude.{
  ℕ, ◌+◌, ◌-◌, ◌*◌, ◌/◌, ◌^◌, ◌≤◌, ◌<◌, ◌≡◌, ◌≢◌, refl, true, false, [], ◌∷◌, arith, ◌==◌,
}
use mi_ster_cast.Prelude.Words.{u16, u32, u64}
use mi_ster_cast.Renderer.{Renderer, World, cmd_audio}
use mi_ster_cast.Renderer.Draw.{next_frame, next_field, add_audio_to_recording}

-- Short of the wrap-around of the 32-bit counters, a draw's frame is never behind the core's. In
-- the same connection it is past the last draw's, and just one more when that was not behind. After
-- a reconnect to a core that starts at 0 it is 1.
pub next_frame_lem :
    (w : World) (r : Renderer)
    → w.before.frame < 2 ^ 32 - 1
    → r.frame < 2 ^ 32 - 1
    → (w.before.frame ≤ next_frame w r)
      × (w.epoch ≡ r.reconnect_epoch → r.frame < next_frame w r)
      × (w.epoch ≡ r.reconnect_epoch → w.before.frame ≤ r.frame → next_frame w r ≡ r.frame + 1)
      × (w.epoch ≢ r.reconnect_epoch → w.before.frame ≡ 0 → next_frame w r ≡ 1)
unfolding next_frame
next_frame_lem w r core host = ground arith

-- While the core reports the same frame and field, draws in an interlaced mode take turns: the next
-- frame number has the other field. The field of the frame after the core's own is the one that
-- the core shows.
pub next_field-alternates :
    (w : World) (r : Renderer) (frame : ℕ)
    → r.current_mode.interlace ≡ true
    → w.before.frame ≤ frame
    → frame < 2 ^ 32 - 1
    → (next_field w r (frame + 1) ≡ 1 - next_field w r frame)
      × (frame ≡ w.before.frame + 1 → w.before.vga_f1 < 2 → next_field w r frame ≡ w.before.vga_f1)
unfolding next_field
next_field-alternates w r frame i core host = ground arith

-- The audio capture hands over an even number of at most 8192 samples. Then the byte count of
-- `CmdAudio` is exact, below 2 ^ 16 and a whole number of stereo frames, and the frames are counted
-- as offered, or as gated when the core takes no audio.
pub add_audio_to_recording-whole :
    (w : World) (frames : ℕ) (r : Renderer)
    → frames ≤ 4096
    → r.offered + frames < 2 ^ 64
    → r.gated + frames < 2 ^ 64
    → (w.after.audio ≢ 0
        → (4 * frames < 2 ^ 16)
          × (add_audio_to_recording w (2 * frames) r
              ≡ (record r { offered = r.offered + frames }, cmd_audio (4 * frames) ∷ [])))
      × (w.after.audio ≡ 0
          → add_audio_to_recording w (2 * frames) r ≡ (record r { gated = r.gated + frames }, []))
unfolding add_audio_to_recording
add_audio_to_recording-whole w frames r small o g = (
  λ on. (omega arith, rw (other (w.after.audio) on, offered_sum, bytes) refl),
  λ off. rw (off, gated_sum) refl,
)
  where
    other : (a : ℕ) → a ≢ 0 → (a == 0) ≡ false
    other a h = ground arith

    offered_sum : u64 (r.offered + 2 * frames / 2) ≡ r.offered + frames
    offered_sum = omega arith

    gated_sum : u64 (r.gated + 2 * frames / 2) ≡ r.gated + frames
    gated_sum = omega arith

    bytes : u16 (u32 (2 * frames * 2)) ≡ 4 * frames
    bytes = omega arith
