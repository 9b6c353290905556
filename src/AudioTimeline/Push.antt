-- ===== src/AudioTimeline/Push.antt =====
-- `push` puts the frames that the window has room for at their indices, and changes nothing else.
use native.Mathlib.Decide.{ℕ_discrete}
use mathlib.Core.Path.{subst}
use mi_ster_cast.Prelude.{
  if-true, if-false, ℕ, zero, suc, ◌+◌, ◌-◌, ◌*◌, ◌/◌, ◌≤◌, ◌<◌, ◌≡◌, ◌≢◌, refl, sym, ap, ◌∙◌, Bool,
  true, false, not, ◌&&◌, ◌||◌, Option, some, length, arith, ltb, leb, ◌==◌, if◌then◌else◌, inl,
  inr, ◌⊎◌, leb→le, ltb→lt,
}
use mi_ster_cast.Prelude.Int.{ℤ, pos, negsuc, ◌+ℤ◌}
use mi_ster_cast.Prelude.Words.{u64}
use mi_ster_cast.AudioTimeline.{
  Timeline, store_sample, place, place_all, frame_sample, is_contiguous, is_missing, floats_of,
  sample_at, push,
}
use mi_ster_cast.AudioTimeline.View.{read_slots, IsValid}
use mi_ster_cast.AudioTimeline.Store.{Stored, store-Stored}

-- The map after the frames with the numbers from `i` up to `i + n`: a frame whose index lies in the
-- window waits at that index, and every index that no frame has is as before.
pub record Placed (samples : ℕ → ℤ × ℤ) (start : ℤ) (n i : ℕ) (t t' : Timeline) : Type 0 where
  pub valid : IsValid t'
  pub phase : t'.phase ≡ t.phase
  pub size : length t'.slots ≡ length t.slots
  pub hit :
      (j m : ℕ)
      → i ≤ j
      → j < i + n
      → start +ℤ pos j ≡ pos m
      → t.phase ≤ m
      → m < t.phase + length t.slots
      → read_slots t'.slots m ≡ some (samples j)
  pub kept :
      (m : ℕ)
      → ((j : ℕ) → i ≤ j → j < i + n → start +ℤ pos j ≢ pos m)
      → read_slots t'.slots m ≡ read_slots t.slots m

-- One round of the loop.
record Round (index : ℤ) (sample : ℤ × ℤ) (t t' : Timeline) : Type 0 where
  valid : IsValid t'
  phase : t'.phase ≡ t.phase
  size : length t'.slots ≡ length t.slots
  hit :
      (m : ℕ)
      → index ≡ pos m
      → t.phase ≤ m
      → m < t.phase + length t.slots
      → read_slots t'.slots m ≡ some sample
  kept : (m : ℕ) → index ≢ pos m → read_slots t'.slots m ≡ read_slots t.slots m

nat_part : ℤ → ℕ
nat_part (pos n) = n
nat_part (negsuc n) = 0

pos_inj : (n m : ℕ) → pos n ≡ pos m → n ≡ m
unfolding nat_part
pos_inj n m e = ap nat_part e

place-misses :
    (n : ℕ) (sample : ℤ × ℤ) (t t' : Timeline)
    → IsValid t
    → (n < t.phase) ⊎ (t.phase + length t.slots ≤ n)
    → IsValid t'
    → t'.slots ≡ t.slots
    → t'.phase ≡ t.phase
    → Round (pos n) sample t t'
place-misses n sample t t' v out v' same here = record {
  valid = v';
  phase = here;
  size = ap length same;
  hit = λ m e from to. absurd (omega (arith, out, pos_inj n m e));
  kept = λ m other. ap (λ s. read_slots s m) same;
}

place-hits :
    (n : ℕ) (sample : ℤ × ℤ) (t t' : Timeline) → Stored n sample t t' → Round (pos n) sample t t'
place-hits n sample t t' s = record {
  valid = s.valid;
  phase = s.phase;
  size = s.size;
  hit = λ m e from to. rw (sym (pos_inj n m e)) s.here;
  kept = λ m other. s.kept m (λ q. other (ap pos (sym q)));
}

not_before : (n m : ℕ) → ltb n m ≡ false → m ≤ n
not_before n m e = ground arith

within : (n lo size : ℕ) → leb size (n - lo) ≡ false → lo ≤ n → n < lo + size
within n lo size e h = ground arith

place-Round :
    (index : ℤ) (sample : ℤ × ℤ) (t : Timeline)
    → IsValid t
    → Round index sample t (place index sample t)
unfolding place
place-Round (negsuc n) sample t v = record {
  valid = v;
  phase = refl;
  size = refl;
  hit = λ m e from to. absurd (cc e);
  kept = λ m other. refl;
}
place-Round (pos n) sample t v =
    split (ltb n t.phase) refl (leb (length t.slots) (n - t.phase)) refl
  where
    split :
        (early : Bool)
        → ltb n t.phase ≡ early
        → (far : Bool) → leb (length t.slots) (n - t.phase) ≡ far
        → Round (pos n) sample t (
            if early
            then record t { late = u64 (t.late + 1) }
            else if far
            then record t { rejected = u64 (t.rejected + 1) }
            else store_sample n sample t)
    split true e far f = place-misses n sample t _ v (inl (ltb→lt _ _ e)) v refl refl
    split false e true f =
        place-misses n sample t _ v
          (inr (omega (arith, leb→le _ _ f, not_before n t.phase e, v.some_slots))) v refl refl
    split false e false f = place-hits n sample t (store_sample n sample t) (
        store-Stored n sample t v (not_before n t.phase e)
          (within n t.phase (length t.slots) f (not_before n t.phase e)))

later_index : (start : ℤ) (i j m : ℕ) → start +ℤ pos i ≡ pos m → start +ℤ pos j ≡ pos m → i ≡ j
unfolding ◌+ℤ◌
later_index start i j m e f = ground arith

place_all-Placed :
    (samples : ℕ → ℤ × ℤ) (start : ℤ) (n i : ℕ) (t : Timeline)
    → IsValid t
    → Placed samples start n i t (place_all samples start n i t)
unfolding place_all
place_all-Placed samples start zero i t v = record {
  valid = v;
  phase = refl;
  size = refl;
  hit = λ j m from to. absurd (omega arith);
  kept = λ m none_. refl;
}
place_all-Placed samples start (suc n) i t v =
    let t₁ = place (start +ℤ pos i) (samples i) t in
    let first = place-Round (start +ℤ pos i) (samples i) t v in
    let rest = place_all-Placed samples start n (i + 1) t₁ first.valid in
    record {
      valid = rest.valid;
      phase = rest.phase ∙ first.phase;
      size = rest.size ∙ first.size;
      hit = λ j m from to e lo hi. elim (ℕ_discrete i j) [
        | yes same ↦
            rest.kept m (λ later above below f.
              absurd (omega (arith, above, same, later_index start later j m f e)))
            ∙ first.hit m (ap (λ x. start +ℤ pos x) same ∙ e) lo hi
            ∙ ap (λ x. some (samples x)) same
        | no apart ↦
            rest.hit j m (omega (arith, apart)) (omega arith) e (omega (arith, first.phase, lo))
              (omega (arith, first.phase, first.size, hi))
      ];
      kept = λ m none_.
          (rest.kept m (λ j from to. none_ j (omega arith) (omega arith))
            ∙ first.kept m (none_ i (omega arith) (omega arith)));
    }

-- The index of a packet's first frame: where the last packet ended if this one goes on there, else
-- the sample of its time stamp, after the delay.
abbrev pub start_index : ℕ → ℤ → Bool → Timeline → ℤ
start_index position timestamp discontinuity t =
    let due = sample_at t timestamp +ℤ pos t.delay in
    if is_contiguous t position discontinuity due then t.packet_end else due

-- A packet that the timeline takes: it has a rate, and the packet a good time stamp, channels, and
-- floats unless it is silent. Its frames go to consecutive indices. A frame whose index lies in the
-- window of the ring waits there with its sample, the others are dropped, every index that no frame
-- has is as before, and the timeline stays valid. Any other packet is only counted as rejected, and
-- the next position is not trusted.
pub push-Placed :
    (pcm : Option (ℕ → ℤ)) (frames channels : ℕ) (silent : Bool) (position : ℕ) (timestamp : ℤ)
    (valid discontinuity : Bool) (t : Timeline)
    → IsValid t
    → let t' = push pcm frames channels silent position timestamp valid discontinuity t in
      let refused = t.rate == 0 || not valid || is_missing pcm silent || channels == 0 in
      (refused ≡ false
        → Placed
            (frame_sample (floats_of pcm) silent channels)
            (start_index position timestamp discontinuity t)
            frames
            0
            t
            t')
      × (refused ≡ true
          → t' ≡ record t { rejected = u64 (t.rejected + frames); position_valid = false })
unfolding push
push-Placed pcm frames channels silent position timestamp valid discontinuity t v = (
  λ taken. subst (Placed samples start frames 0 t) (sym (if-false _ _ taken)) placed,
  λ refused. if-true _ _ refused,
)
  where
    samples : ℕ → ℤ × ℤ
    samples = frame_sample (floats_of pcm) silent channels

    start : ℤ
    start = start_index position timestamp discontinuity t

    base : Timeline
    base = record t {
      rebased =
          if not (is_contiguous t position discontinuity (sample_at t timestamp +ℤ pos t.delay))
            && t.position_valid
          then u64 (t.rebased + 1)
          else t.rebased;
      packet_end = start +ℤ pos frames;
      expected_position = u64 (position + frames);
      position_valid = true;
      last_packet_end = timestamp +ℤ pos (frames * 10000000 / t.rate);
    }

    placed : Placed samples start frames 0 t (place_all samples start frames 0 base)
    placed =
        let p = place_all-Placed samples start frames 0 base v in
        record { valid = p.valid; phase = p.phase; size = p.size; hit = p.hit; kept = p.kept }
