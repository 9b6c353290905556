-- ===== src/AudioCapture/Demand.antt =====
-- What a tick asks the timeline for.
use mi_ster_cast.Prelude.{
  ℕ, ◌+◌, ◌^◌, ◌≤◌, ◌<◌, ◌≡◌, ◌≢◌, ◌⊎◌, inl, inr, refl, sym, ap, ◌∙◌, Bool, true, false, arith,
  if◌then◌else◌,
}
use mathlib.Core.Path.{subst}
use mi_ster_cast.Prelude.Int.{ℤ, pos, ◌≤ℤ◌, ltb_ℤ}
use mi_ster_cast.AudioTimeline.{rebase_to_now}
use mi_ster_cast.AudioTimeline.Bounds.{rebase-output}
use mi_ster_cast.ReceiverClock.{Doubles, Clock, due_at, reanchor}
use mi_ster_cast.ReceiverClock.Due.{IsExact, due_at-Demands, reanchor-due_at}
use mi_ster_cast.AudioCapture.{max_frames, Capture, Tick, is_behind, demand}

not_behind : (due : ℤ) (n : ℕ) → ltb_ℤ (pos n) due ≡ false → due ≤ℤ pos n
not_behind due n e = ground arith

lead_fits : (output lead : ℕ) → lead ≤ max_frames → pos (output + lead) ≤ℤ pos (output + max_frames)
lead_fits output lead h = omega arith

module _ {D : Type 0} (ops : Doubles D) (k : Tick D) where
  -- What the tick gets to render.
  pub record Served (s : Capture D) (due : ℤ) (s' : Capture D) : Type 0 where
    pub output : s'.timeline.output ≡ s.timeline.output
    pub within : due ≤ℤ pos (s'.timeline.output + max_frames)
    pub kept : (s.clock.due ≤ℤ due) ⊎ (due ≡ pos (s.timeline.output + s.clock.lead))

  -- A tick of a clock with a rate, whose lead is no longer than one send, never asks for more than
  -- one send can give: the demand is at most 4096 frames past what was put out, whatever the reports
  -- and the time. It does not fall below the demand of the tick before, unless the clock was anchored
  -- anew, at exactly its lead past the output.
  pub demand-Served :
      (s : Capture D)
      → IsExact ops
      → s.clock.rate ≢ 0
      → s.clock.lead ≤ max_frames
      → s.timeline.output < 2 ^ 53
      → Served s (demand ops k s).0 (demand ops k s).1
  unfolding demand
  demand-Served s exact on short small = split (is_behind ops first.0 s.timeline) refl
    where
      first : ℤ × Clock D
      first = due_at ops k.display_frame k.now s.clock

      again : ℤ × Clock D
      again =
          due_at ops k.display_frame k.now
            (reanchor ops k.display_frame k.now s.timeline.output first.1)

      asks : (s.clock.due ≤ℤ first.0)
      asks =
          let one = due_at-Demands ops k.display_frame k.now s.clock in
          subst (λ d. s.clock.due ≤ℤ d) (sym (one.3 on).0) one.0

      anchored : again.0 ≡ pos (s.timeline.output + s.clock.lead)
      anchored =
          let one = due_at-Demands ops k.display_frame k.now s.clock in
          reanchor-due_at ops k.display_frame k.now s.timeline.output first.1 exact
            (λ e. on (sym one.2 ∙ e)) small
          ∙ ap (λ n. pos (s.timeline.output + n)) one.1

      moved : Capture D
      moved = record s { clock = again.1; timeline = rebase_to_now k.rebased_phase s.timeline }

      stays : (rebase_to_now k.rebased_phase s.timeline).output ≡ s.timeline.output
      stays = rebase-output k.rebased_phase s.timeline

      split :
          (behind : Bool)
          → is_behind ops first.0 s.timeline ≡ behind
          → let result =
              if◌then◌else◌ {A = ℤ × Capture D} behind
                (again.0, moved)
                (first.0, record s { clock = first.1 }) in
            Served s result.0 result.1
      split true e = record {
        output = stays;
        within =
            subst (λ n. again.0 ≤ℤ pos (n + max_frames)) (sym stays)
              (subst (λ d. d ≤ℤ pos (s.timeline.output + max_frames)) (sym anchored)
                (lead_fits s.timeline.output s.clock.lead short));
        kept = inr anchored;
      }
      split false e = record {
        output = refl;
        within = not_behind first.0 (s.timeline.output + max_frames) e;
        kept = inl asks;
      }
