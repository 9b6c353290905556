-- ===== src/AudioTimeline/Played.antt =====
-- What `render` plays: the skip, then the loop.
use mathlib.Core.Path.{subst}
use mi_ster_cast.Prelude.{
  ℕ, zero, suc, ◌+◌, ◌-◌, ◌≤◌, ◌<◌, min, ◌≡◌, ◌≢◌, refl, sym, ap, ◌∙◌, Bool, true, false, not, ◌||◌,
  List, length, get_or, arith, ltb, leb, ◌==◌, if◌then◌else◌, if-false, if-true, ltb→lt,
}
use mi_ster_cast.Prelude.Int.{ℤ, pos}
use mi_ster_cast.Prelude.Words.{u64}
use mi_ster_cast.AudioTimeline.{Timeline, advance}
use mi_ster_cast.AudioTimeline.View.{read_slots, IsValid}
use mi_ster_cast.AudioTimeline.Advance.{Restricted, advance-Restricted}
use mi_ster_cast.AudioTimeline.Render.{Motion, skip, note_send, render}
use mi_ster_cast.AudioTimeline.Heard.{
  heard, Onward, phase_at, steps-le, heard-same, render_loop-Plays,
}

within : (a b : ℕ) → ltb a b ≡ false → b ≤ a
within a b e = ground arith

-- The phase and the frames that are skipped when the demand is past the capacity.
record Skipped (m : Motion) (due capacity : ℕ) (t t' : Timeline) : Type 0 where
  valid : IsValid t'
  output : due - t'.output ≡ min (due - t.output) capacity
  reached : t'.output + min (due - t.output) capacity ≡ due
  view : (n : ℕ) → t'.phase ≤ n → read_slots t'.slots n ≡ read_slots t.slots n
  moved : t'.phase ≡ (if ltb capacity (due - t.output) then m.skip_to else t.phase)

skip-Skipped :
    (m : Motion) (due capacity : ℕ) (t : Timeline)
    → IsValid t
    → t.output < due
    → t.phase ≤ m.skip_to
    → Skipped m due capacity t (skip m due capacity t)
unfolding skip
skip-Skipped m due capacity t v behind forward = split (ltb capacity (due - t.output)) refl
  where
    r : Restricted m.skip_to t (advance m.skip_to t)
    r = advance-Restricted m.skip_to t v forward

    past : Timeline
    past =
        let moved = advance m.skip_to t in
        record moved {
          skipped = u64 (moved.skipped + (due - t.output - capacity));
          output = moved.output + (due - t.output - capacity);
        }

    split :
        (b : Bool)
        → ltb capacity (due - t.output) ≡ b
        → Skipped m due capacity t (if b then past else t)
    split true e =
        let far = ltb→lt _ _ e in
        record {
          valid = r.valid;
          output = omega (arith, r.output, far);
          reached = omega (arith, r.output, far);
          view = λ n le. r.kept n (omega (arith, r.phase, le));
          moved = r.phase ∙ sym (if-true _ _ e);
        }
    split false e = record {
      valid = v;
      output = omega (arith, within _ _ e);
      reached = omega (arith, behind, within _ _ e);
      view = λ n le. refl;
      moved = sym (if-false _ _ e);
    }

-- Where the phase is when the loop starts.
abbrev pub start_phase : Motion → ℕ → ℕ → Timeline → ℕ
start_phase m due capacity t = if ltb capacity (due - t.output) then m.skip_to else t.phase

-- What a render answers.
pub record Rendered (m : Motion) (due capacity : ℕ) (t : Timeline)
    (result : List (ℤ × ℤ) × Timeline) : Type 0 where
  pub valid : IsValid result.1
  pub size : length result.0 ≡ min (due - t.output) capacity
  pub output : result.1.output ≡ due
  pub plays :
      (k : ℕ)
      → k < min (due - t.output) capacity
      → get_or result.0 k (pos 0, pos 0)
        ≡ heard m k (read_slots t.slots) (phase_at m 0 (start_phase m due capacity t) k)

phase_at-ge : (m : Motion) (phase k : ℕ) → Onward m phase 0 → phase ≤ phase_at m 0 phase k
unfolding phase_at
phase_at-ge m phase zero on = omega arith
phase_at-ge m phase (suc k) on = omega (arith, on.first, steps-le m phase 0 k on)

-- A render that is due, with a rate and an output buffer, as long as the source phase never goes
-- back: it plays as many frames as are due, at most the capacity, and is then no longer behind the
-- demand; a demand past the capacity is met by skipping. Frame `k` is what waits at the phase of
-- round `k`, mixed with its successor if that waits too, or silence. The timeline stays valid.
pub render-Rendered :
    (m : Motion) (now : ℤ) (due capacity : ℕ) (t : Timeline)
    → IsValid t
    → t.rate ≢ 0
    → capacity ≢ 0
    → t.output < due
    → t.phase ≤ m.skip_to
    → Onward m (start_phase m due capacity t) 0
    → Rendered m due capacity t (render m now (pos due) true capacity t)
unfolding render note_send
render-Rendered m now due capacity t v rated some_room behind forward on =
    subst (Rendered m due capacity t) (sym (if-false _ _ (no_return rated some_room behind))) (
      let s = skip-Skipped m due capacity t v behind forward in
      let ready = note_send now (skip m due capacity t) in
      let p = render_loop-Plays m (due - ready.output) 0 ready s.valid (rw s.moved on) in
      record {
        valid = p.valid;
        size = p.size ∙ s.output;
        output = omega (arith, p.output, s.output, s.reached);
        plays = λ k l.
            (let from = start_phase m due capacity t in
              let at = phase_at m 0 from k in
              p.plays k (omega (arith, s.output, l))
              ∙ ap (λ q. heard m (0 + k) (read_slots ready.slots) (phase_at m 0 q k)) s.moved
              ∙ heard-same m (0 + k) (skip m due capacity t).phase at (read_slots t.slots)
                  (read_slots ready.slots) s.view (omega (arith, s.moved, phase_at-ge m from k on))
              ∙ ap (λ r. heard m r (read_slots t.slots) at) (zero_plus k));
      })
  where
    zero_plus : (a : ℕ) → 0 + a ≡ a
    zero_plus a = omega arith

    no_return :
        t.rate ≢ 0
        → capacity ≢ 0
        → t.output < due
        → (t.rate == 0 || not true || capacity == 0 || leb due t.output) ≡ false
    no_return rated some_room behind = ground arith
