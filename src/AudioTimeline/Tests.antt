-- ===== src/AudioTimeline/Tests.antt =====
-- A small ring, and the theorems at concrete packets.
use mi_ster_cast.Prelude.{ℕ, ◌+◌, ◌≡◌, refl, true, false, some, replicate, arith, [], ◌∷◌}
use mi_ster_cast.Prelude.Int.{ℤ, pos, ◌+ℤ◌, ◌-ℤ◌}
use mi_ster_cast.AudioTimeline.{
  free, Timeline, scale, sample_at, store_sample, place, place_all, frame_sample, is_contiguous,
  push, advance, release_all, release,
}
use mi_ster_cast.AudioTimeline.View.{read_slots, IsValid}
use mi_ster_cast.AudioTimeline.Reset.{free_slots-Held}
use mi_ster_cast.AudioTimeline.Push.{Placed, start_index, push-Placed}
use mi_ster_cast.Prelude.Words.{u64}
use mi_ster_cast.AudioTimeline.Drops.{lost_frames, push-lost}
use mi_ster_cast.AudioTimeline.Render.{
  Motion, render, skip, note_send, render_loop, render_round, render_frame,
}
use mi_ster_cast.AudioTimeline.Played.{Rendered, render-Rendered}
use mi_ster_cast.AudioTimeline.Advance.{Restricted, advance-Restricted}

-- Four slots at a thousand frames a second, two frames of delay.
abbrev ring : Timeline
ring = record {
  slots = replicate 4 free;
  rate = 1000;
  pending = 0;
  epoch = pos 0;
  delay = 2;
  lead = 1;
  packet_end = pos 0;
  last_render = pos 0;
  last_packet_end = pos 0;
  output = 0;
  phase = 0;
  expected_position = 0;
  position_valid = false;
  late = 0;
  rejected = 0;
  rebased = 0;
  inserted_silence = 0;
  skipped = 0;
  max_send_gap = 0;
}

ring-IsValid : IsValid ring
ring-IsValid = free_slots-Held 4 0 4 (omega arith) (omega arith)

abbrev floats : ℕ → ℤ
floats j = pos (j + 100)

-- Three stereo frames from the epoch on: indices 2, 3 and 4, of which the last finds no slot.
abbrev pushed : Timeline
pushed = push (some floats) 3 2 false 0 (pos 0) true false ring

second_frame : read_slots pushed.slots 3 ≡ some (pos 102, pos 103)
unfolding push sample_at scale is_contiguous place_all place store_sample frame_sample read_slots
    ◌+ℤ◌ ◌-ℤ◌
second_frame = refl

no_slot_left : pushed.rejected ≡ 1
unfolding push sample_at scale is_contiguous place_all place store_sample frame_sample ◌+ℤ◌ ◌-ℤ◌
no_slot_left = refl

push-Placed_example :
    let refused = false in
    (refused ≡ false
      → Placed (frame_sample floats false 2) (start_index 0 (pos 0) false ring) 3 0 ring pushed)
    × (refused ≡ true → pushed ≡ record ring { rejected = 3; position_valid = false })
push-Placed_example = push-Placed (some floats) 3 2 false 0 (pos 0) true false ring ring-IsValid

-- With the window from index 3 on, the frame of index 2 is late.
early_frame :
    lost_frames (some floats) 3 2 false 0 (pos 0) true false (record ring { phase = 3 }) ≡ (1, 0)
unfolding sample_at scale is_contiguous ◌+ℤ◌ ◌-ℤ◌
early_frame = refl

push-lost_example :
    let lost = lost_frames (some floats) 3 2 false 0 (pos 0) true false ring in
    (u64 pushed.late ≡ u64 (0 + lost.0)) × (u64 pushed.rejected ≡ u64 (0 + lost.1))
push-lost_example = push-lost (some floats) 3 2 false 0 (pos 0) true false ring

advance-Restricted_example : Restricted 2 ring (advance 2 ring)
advance-Restricted_example = advance-Restricted 2 ring ring-IsValid (omega arith)

-- Nothing is corrected: the phase moves one frame a round, and the first sample is taken.
abbrev straight : Motion
straight = record { skip_to = 2; step_to = λ i. i + 3; mix = λ i a b. a }

ready-IsValid : IsValid (record ring { phase = 2 })
ready-IsValid = free_slots-Held 4 2 6 (omega arith) (omega arith)

render-Rendered_example :
    Rendered straight 3 8
      (record ring { phase = 2 })
      (render straight (pos 9) (pos 3) true 8 (record ring { phase = 2 }))
render-Rendered_example =
    render-Rendered straight (pos 9) 3 8 (record ring { phase = 2 }) ready-IsValid
      (λ e. absurd (omega arith)) (λ e. absurd (omega arith)) (omega arith) (omega arith)
      (record { first = omega arith; steps = λ j. omega arith })

-- The packet above, rendered from its first frame on.
heard_samples :
    (render straight (pos 9) (pos 3) true 8 (record pushed { phase = 2 })).0
    ≡ (pos 100, pos 101) ∷ (pos 102, pos 103) ∷ (pos 0, pos 0) ∷ []
unfolding render skip note_send render_loop render_round render_frame advance release_all release
    push sample_at scale is_contiguous place_all place store_sample frame_sample ◌+ℤ◌ ◌-ℤ◌
heard_samples = refl
