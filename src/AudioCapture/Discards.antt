-- ===== src/AudioCapture/Discards.antt =====
-- Which frames of a packet a tick converts, discards and gates.
use mi_ster_cast.Prelude.{ℕ, ◌+◌, ◌≡◌, not, Option}
use mi_ster_cast.Prelude.Int.{ℤ, pos}
use mi_ster_cast.Prelude.Words.{u32, u64}
use mi_ster_cast.AudioPackets.{Packet}
use mi_ster_cast.AudioTimeline.{Timeline}
use mi_ster_cast.AudioTimeline.Drops.{lost_frames}
use mi_ster_cast.AudioCapture.{Capture, Tick}

-- A packet for the ring: `lost` of its frames are discarded and `kept` are converted.
pub record Sorted {D : Type 0} (lost kept : ℕ) (s s' : Capture D) : Type 0 where
  pub discarded : s'.discarded ≡ u64 (s.discarded + lost)
  pub converted : s'.converted ≡ u64 (s.converted + kept)
  pub shed : s'.shed ≡ u32 (s.shed + lost)
  pub gated : s'.gated ≡ s.gated

-- A packet that only counts as gated.
pub record Gated {D : Type 0} (frames : ℕ) (s s' : Capture D) : Type 0 where
  pub discarded : s'.discarded ≡ s.discarded
  pub converted : s'.converted ≡ s.converted
  pub shed : s'.shed ≡ s.shed
  pub gated : s'.gated ≡ u64 (s.gated + frames)
  pub timeline : s'.timeline ≡ s.timeline

-- The frames of the packet that the ring does not take.
abbrev pub lost_of : {D : Type 0} → Tick D → Packet × Option (ℕ → ℤ) → Timeline → ℕ × ℕ
lost_of k (p, pcm) t =
    lost_frames pcm p.frames k.channels p.silent p.position (pos p.qpc) (not p.timestamp_error)
      p.discontinuity t
