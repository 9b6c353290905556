-- ===== src/AudioTimeline/Drops.antt =====
-- How many frames of a packet `push` drops, and how it counts them.
use mi_ster_cast.Prelude.{
  ℕ, zero, suc, ◌+◌, ◌-◌, ◌*◌, ◌/◌, ◌≤◌, ◌≡◌, refl, ap, ◌∙◌, Bool, true, false, not, ◌&&◌, ◌||◌,
  Option, length, arith, ltb, leb, ◌==◌, if◌then◌else◌, length-set, min,
}
use mathlib.Core.Path.{subst}
use mi_ster_cast.Prelude.Int.{ℤ, pos, negsuc, ◌+ℤ◌, pos_part, neg_part, int_laws}
use mi_ster_cast.Prelude.Steps.{both}
use mi_ster_cast.Prelude.Words.{u64}
use mi_ster_cast.AudioTimeline.{
  Timeline, store_sample, place, place_all, frame_sample, is_contiguous, is_missing, floats_of,
  sample_at, push,
}
use mi_ster_cast.AudioTimeline.Push.{start_index}

-- Of `n` frames with consecutive indices from `start` on, those below an index and those from an
-- index on.
abbrev pub frames_below : ℤ → ℕ → ℕ → ℕ
frames_below start n index = min n (index + neg_part start - pos_part start)

abbrev pub frames_from : ℤ → ℕ → ℕ → ℕ
frames_from start n index = min n (pos_part start + n - (index + neg_part start))

-- The frames below the window are counted as late and those behind it as rejected, modulo 2 ^ 64.
pub record Dropped (start : ℤ) (n : ℕ) (t t' : Timeline) : Type 0 where
  pub phase : t'.phase ≡ t.phase
  pub size : length t'.slots ≡ length t.slots
  pub late : u64 t'.late ≡ u64 (t.late + frames_below start n t.phase)
  pub rejected : u64 t'.rejected ≡ u64 (t.rejected + frames_from start n (t.phase + length t.slots))

place-Dropped :
    (index : ℤ) (sample : ℤ × ℤ) (t : Timeline) → Dropped index 1 t (place index sample t)
unfolding place store_sample
place-Dropped (negsuc m) sample t = record {
  phase = refl;
  size = refl;
  late = ground arith;
  rejected = ground arith;
}
place-Dropped (pos m) sample t =
    split (ltb m t.phase) refl (leb (length t.slots) (m - t.phase)) refl
  where
    split :
        (early : Bool)
        → ltb m t.phase ≡ early
        → (far : Bool) → leb (length t.slots) (m - t.phase) ≡ far
        → Dropped (pos m) 1 t (
            if early
            then record t { late = u64 (t.late + 1) }
            else if far
            then record t { rejected = u64 (t.rejected + 1) }
            else store_sample m sample t)
    split true e far f = record {
      phase = refl;
      size = refl;
      late = ground arith;
      rejected = ground arith;
    }
    split false e true f = record {
      phase = refl;
      size = refl;
      late = ground arith;
      rejected = ground arith;
    }
    split false e false f = record {
      phase = refl;
      size = length-set t.slots _ _;
      late = ground arith;
      rejected = ground arith;
    }

-- One frame and the frames after it.
module _ (x y : ℤ) (next : pos_part y + neg_part x ≡ pos_part x + neg_part y + 1) where
  frames_below-suc :
      (n index : ℕ) → frames_below x 1 index + frames_below y n index ≡ frames_below x (suc n) index
  frames_below-suc n index = ground (arith, next)

  frames_from-suc :
      (n index : ℕ) → frames_from x 1 index + frames_from y n index ≡ frames_from x (suc n) index
  frames_from-suc n index = ground (arith, next)

next_index :
    (start : ℤ) (i : ℕ)
    → pos_part (start +ℤ pos (i + 1)) + neg_part (start +ℤ pos i)
      ≡ pos_part (start +ℤ pos i) + neg_part (start +ℤ pos (i + 1)) + 1
next_index start i = omega int_laws

sum_lem :
    (a b c d e f : ℕ) → u64 b ≡ u64 (a + d) → u64 c ≡ u64 (b + e) → d + e ≡ f → u64 c ≡ u64 (a + f)
sum_lem a b c d e f p q r = omega (arith, p, q, r)

place_all-Dropped :
    (samples : ℕ → ℤ × ℤ) (start : ℤ) (n i : ℕ) (t : Timeline)
    → Dropped (start +ℤ pos i) n t (place_all samples start n i t)
unfolding place_all
place_all-Dropped samples start zero i t = record {
  phase = refl;
  size = refl;
  late = ground arith;
  rejected = ground arith;
}
place_all-Dropped samples start (suc n) i t =
    let first = place-Dropped (start +ℤ pos i) (samples i) t in
    let t₁ = place (start +ℤ pos i) (samples i) t in
    let rest = place_all-Dropped samples start n (i + 1) t₁ in
    let next = next_index start i in
    record {
      phase = rest.phase ∙ first.phase;
      size = rest.size ∙ first.size;
      late = sum_lem t.late t₁.late _ _ _ _ first.late rest.late (
          ap
            (λ x. frames_below (start +ℤ pos i) 1 t.phase + frames_below (start +ℤ pos (i + 1)) n x)
            first.phase
          ∙ frames_below-suc (start +ℤ pos i) (start +ℤ pos (i + 1)) next n t.phase);
      rejected = sum_lem t.rejected t₁.rejected _ _ _ _ first.rejected rest.rejected (
          both
            (λ x y.
              frames_from (start +ℤ pos i) 1 (t.phase + length t.slots)
              + frames_from (start +ℤ pos (i + 1)) n (x + y))
            first.phase first.size
          ∙ frames_from-suc (start +ℤ pos i) (start +ℤ pos (i + 1)) next n
              (t.phase + length t.slots));
    }

-- The frames that do not come to wait: all of a packet that is refused, else those whose indices lie
-- outside the window of the ring, below it or behind it.
abbrev pub lost_if : Bool → ℤ → ℕ → Timeline → ℕ × ℕ
lost_if true start frames t = (0, frames)
lost_if false start frames t =
    (frames_below start frames t.phase, frames_from start frames (t.phase + length t.slots))

abbrev pub lost_frames :
    Option (ℕ → ℤ)
    → (frames channels : ℕ) → (silent : Bool) → (position : ℕ) → (timestamp : ℤ)
    → (valid discontinuity : Bool) → Timeline
    → ℕ × ℕ
lost_frames pcm frames channels silent position timestamp valid discontinuity t =
    lost_if (t.rate == 0 || not valid || is_missing pcm silent || channels == 0)
      (start_index position timestamp discontinuity t) frames t

no_offset : (start : ℤ) → start +ℤ pos 0 ≡ start
no_offset start = omega int_laws

-- A push counts, modulo 2 ^ 64, as late exactly the frames whose indices lie below the window of the
-- ring and as rejected exactly those whose indices lie behind it; of a packet that it refuses, no
-- frame is late and every frame is rejected. The indices go on where the last packet ended, or from
-- the packet's time stamp.
pub push-lost :
    (pcm : Option (ℕ → ℤ)) (frames channels : ℕ) (silent : Bool) (position : ℕ) (timestamp : ℤ)
    (valid discontinuity : Bool) (t : Timeline)
    → let t' = push pcm frames channels silent position timestamp valid discontinuity t in
      let lost = lost_frames pcm frames channels silent position timestamp valid discontinuity t in
      (u64 t'.late ≡ u64 (t.late + lost.0)) × (u64 t'.rejected ≡ u64 (t.rejected + lost.1))
unfolding push
push-lost pcm frames channels silent position timestamp valid discontinuity t =
    split (t.rate == 0 || not valid || is_missing pcm silent || channels == 0)
  where
    start : ℤ
    start = start_index position timestamp discontinuity t

    samples : ℕ → ℤ × ℤ
    samples = frame_sample (floats_of pcm) silent channels

    base : Timeline
    base = record t {
      rebased =
          if not (is_contiguous t position discontinuity (sample_at t timestamp +ℤ pos t.delay))
            && t.position_valid
          then u64 (t.rebased + 1)
          else t.rebased;
      packet_end = start +ℤ pos frames;
      expected_position = u64 (position + frames);
      position_valid = true;
      last_packet_end = timestamp +ℤ pos (frames * 10000000 / t.rate);
    }

    split :
        (refused : Bool)
        → let t' =
            if refused
            then record t { rejected = u64 (t.rejected + frames); position_valid = false }
            else place_all samples start frames 0 base in
          let lost = lost_if refused start frames t in
          (u64 t'.late ≡ u64 (t.late + lost.0)) × (u64 t'.rejected ≡ u64 (t.rejected + lost.1))
    split true = (ground arith, ground arith)
    split false =
        let d =
          subst (λ x. Dropped x frames base (place_all samples start frames 0 base))
            (no_offset start) (place_all-Dropped samples start frames 0 base) in
        (d.late, d.rejected)

-- No frame is lost twice.
pub lost_frames-le :
    (pcm : Option (ℕ → ℤ)) (frames channels : ℕ) (silent : Bool) (position : ℕ) (timestamp : ℤ)
    (valid discontinuity : Bool) (t : Timeline)
    → let lost = lost_frames pcm frames channels silent position timestamp valid discontinuity t in
      lost.0 + lost.1 ≤ frames
lost_frames-le pcm frames channels silent position timestamp valid discontinuity t =
    split (t.rate == 0 || not valid || is_missing pcm silent || channels == 0)
      (start_index position timestamp discontinuity t)
  where
    split :
        (refused : Bool) (start : ℤ)
        → let lost = lost_if refused start frames t in lost.0 + lost.1 ≤ frames
    split true start = omega arith
    split false start = ground arith
