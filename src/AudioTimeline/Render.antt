-- ===== src/AudioTimeline/Render.antt =====
-- `render` of AudioTimeline.h. What its doubles decide is an argument: where each advance moves the
-- integer part of the source phase, and how two samples are mixed at a fraction.
use mi_ster_cast.Prelude.{
  ℕ, zero, suc, ◌+◌, ◌-◌, ◌%◌, max, Bool, not, ◌||◌, List, [], ◌∷◌, length, get_or, ltb, leb, ◌==◌,
  if◌then◌else◌,
}
use mi_ster_cast.Prelude.Int.{ℤ, pos, negsuc, ◌-ℤ◌, pos_part}
use mi_ster_cast.Prelude.Words.{u64}
use mi_ster_cast.AudioTimeline.{free, Timeline, holds, advance}

-- The phase after the skip, the phase after each round, and `interpolate` in each round.
pub record Motion : Type 0 where
  pub skip_to : ℕ
  pub step_to : ℕ → ℕ
  pub mix : ℕ → ℤ → ℤ → ℤ

abbrev silence : ℤ × ℤ
silence = (pos 0, pos 0)

-- The output of round `i`.
unfoldable pub render_frame : Motion → ℕ → Timeline → (ℤ × ℤ) × Timeline
render_frame m i t =
    let first = get_or t.slots (t.phase % length t.slots) free in
    let second = get_or t.slots ((t.phase + 1) % length t.slots) free in
    if holds first.index t.phase
    then (
      (if holds second.index (t.phase + 1)
          then (m.mix i first.left second.left, m.mix i first.right second.right)
          else (first.left, first.right)),
      t,
    )
    else (silence, record t { inserted_silence = u64 (t.inserted_silence + 1) })

-- A round: the output, the advance, and one more frame that is out.
unfoldable pub render_round : Motion → ℕ → Timeline → Timeline
render_round m i t =
    let moved = advance (m.step_to i) ((render_frame m i t).1) in
    record moved { output = moved.output + 1 }

-- The loop: `n` rounds from number `i` on.
unfoldable pub render_loop : Motion → ℕ → ℕ → Timeline → List (ℤ × ℤ) × Timeline
render_loop m zero i t = ([], t)
render_loop m (suc n) i t =
    let rest = render_loop m n (i + 1) (render_round m i t) in
    ((render_frame m i t).0 ∷ rest.0, rest.1)

-- Frames past the capacity of the output are skipped.
unfoldable pub skip : Motion → ℕ → ℕ → Timeline → Timeline
skip m due capacity t =
    if ltb capacity (due - t.output)
    then (let moved = advance m.skip_to t in
        record moved {
          skipped = u64 (moved.skipped + (due - t.output - capacity));
          output = moved.output + (due - t.output - capacity);
        })
    else t

-- The telemetry of the sends.
unfoldable pub note_send : ℤ → Timeline → Timeline
note_send now t = record t {
  max_send_gap = max t.max_send_gap (pos_part (now -ℤ t.last_render));
  last_render = now;
}

-- `render`; `output` tells whether the buffer is not null. The result is what the buffer gets.
unfoldable pub render :
    Motion → ℤ → ℤ → (output : Bool) → (capacity : ℕ) → Timeline → List (ℤ × ℤ) × Timeline
render m now (negsuc due) output capacity t = ([], t)
render m now (pos due) output capacity t =
    if t.rate == 0 || not output || capacity == 0 || leb due t.output
    then ([], t)
    else (let ready = note_send now (skip m due capacity t) in
        render_loop m (due - ready.output) 0 ready)
