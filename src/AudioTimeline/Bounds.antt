-- ===== src/AudioTimeline/Bounds.antt =====
-- Bounds of `render` that hold in every state.
use mi_ster_cast.Prelude.{
  Option, none, some, ℕ, zero, suc, ◌+◌, ◌-◌, ◌%◌, ◌^◌, ◌≤◌, ◌≡◌, refl, ap, ◌∙◌, Bool, true, false,
  not, ◌||◌, List, [], length, get_or, set, map, arith, ltb, leb, ◌==◌, if◌then◌else◌, ltb→lt,
}
use mi_ster_cast.Prelude.Int.{ℤ, pos, negsuc}
use mi_ster_cast.Prelude.Words.{u32, u64}
use mi_ster_cast.AudioTimeline.{
  free, Timeline, holds, release, release_all, emptied, advance, rebase_to_now,
}
use mi_ster_cast.AudioTimeline.Render.{Motion, render_round, render_loop, skip, note_send, render}

output-if :
    (b : Bool) (x y : Timeline) (n : ℕ)
    → x.output ≡ n
    → y.output ≡ n
    → (if b then x else y).output ≡ n
output-if true x y n p q = p
output-if false x y n p q = q

release-output : (n : ℕ) (t : Timeline) → (release n t).output ≡ t.output
unfolding release
release-output n t =
    output-if (holds (get_or t.slots (n % length t.slots) free).index n)
      (record t {
        pending = u32 (t.pending + 2 ^ 32 - 1);
        slots =
            set t.slots (n % length t.slots)
              (record (get_or t.slots (n % length t.slots) free) { index = none });
      })
      t t.output refl refl

release_all-output : (n i : ℕ) (t : Timeline) → (release_all n i t).output ≡ t.output
unfolding release_all
release_all-output zero i t = refl
release_all-output (suc n) i t = release_all-output n (i + 1) (release i t) ∙ release-output i t

advance-output : (new : ℕ) (t : Timeline) → (advance new t).output ≡ t.output
unfolding advance
advance-output new t =
    output-if (leb (length t.slots) (new - t.phase))
      (record t { phase = new; slots = map emptied t.slots; pending = 0 })
      (release_all (new - t.phase) t.phase (record t { phase = new })) t.output refl
      (release_all-output (new - t.phase) t.phase (record t { phase = new }))

length-render_loop : (m : Motion) (n i : ℕ) (t : Timeline) → length (render_loop m n i t).0 ≡ n
unfolding render_loop
length-render_loop m zero i t = refl
length-render_loop m (suc n) i t = ap suc (length-render_loop m n (i + 1) (render_round m i t))

not_over : (capacity n : ℕ) → ltb capacity n ≡ false → n ≤ capacity
not_over capacity n e = ground arith

skip-le :
    (m : Motion) (due capacity : ℕ) (t : Timeline) → due - (skip m due capacity t).output ≤ capacity
unfolding skip
skip-le m due capacity t = split (ltb capacity (due - t.output)) refl
  where
    moved : Timeline
    moved = advance m.skip_to t

    past : Timeline
    past = record moved {
      skipped = u64 (moved.skipped + (due - t.output - capacity));
      output = moved.output + (due - t.output - capacity);
    }

    split :
        (b : Bool)
        → ltb capacity (due - t.output) ≡ b
        → due - (if b then past else t).output ≤ capacity
    split true e = omega (arith, advance-output m.skip_to t, ltb→lt _ _ e)
    split false e = not_over capacity (due - t.output) e

-- In every state and at every demand, a render gives at most the capacity.
pub render-le :
    (m : Motion) (now due : ℤ) (output : Bool) (capacity : ℕ) (t : Timeline)
    → length (render m now due output capacity t).0 ≤ capacity
unfolding render note_send
render-le m now (negsuc due) output capacity t = omega arith
render-le m now (pos due) output capacity t =
    split (t.rate == 0 || not output || capacity == 0 || leb due t.output)
  where
    ready : Timeline
    ready = note_send now (skip m due capacity t)

    rendered : Bool → List (ℤ × ℤ) × Timeline
    rendered b = if b then ([], t) else render_loop m (due - ready.output) 0 ready

    split : (b : Bool) → length (rendered b).0 ≤ capacity
    split true = omega arith
    split false =
        omega (arith, skip-le m due capacity t, length-render_loop m (due - ready.output) 0 ready)

pub rebase-output : (new : Option ℕ) (t : Timeline) → (rebase_to_now new t).output ≡ t.output
unfolding rebase_to_now
rebase-output none t = refl
rebase-output (some new) t = advance-output new t
