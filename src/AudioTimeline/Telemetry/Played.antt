-- ===== src/AudioTimeline/Telemetry/Played.antt =====
-- The rendering looks at no counter.
use mi_ster_cast.Prelude.Steps.{branches_lem}
use mi_ster_cast.Prelude.{
  ℕ, zero, suc, ◌+◌, ◌-◌, ◌≡◌, refl, sym, ap, ◌∙◌, Bool, not, ◌||◌, List, arith, ltb, leb, ◌==◌,
}
use mathlib.Core.Path.{subst}
use mi_ster_cast.Prelude.Int.{ℤ, pos, negsuc}
use mi_ster_cast.AudioTimeline.{Timeline}
use mi_ster_cast.AudioTimeline.Render.{
  Motion, render_frame, render_round, render_loop, skip, note_send, render,
}
use mi_ster_cast.AudioTimeline.Telemetry.{clear_timeline, Alike, Alike-step, advance-Alike}

render_frame-blind :
    (m : Motion) (i : ℕ) (t : Timeline)
    → ((render_frame m i t).0 ≡ (render_frame m i (clear_timeline t)).0)
      × Alike ((render_frame m i t).1) ((render_frame m i (clear_timeline t)).1)
unfolding clear_timeline render_frame
render_frame-blind m i t = ground arith

render_frame-Alike :
    (m : Motion) (i : ℕ) (t t' : Timeline)
    → Alike t t'
    → ((render_frame m i t).0 ≡ (render_frame m i t').0)
      × Alike ((render_frame m i t).1) ((render_frame m i t').1)
render_frame-Alike m i t t' e = (
  (render_frame-blind m i t).0
      ∙ ap (λ x. (render_frame m i x).0) e
      ∙ sym ((render_frame-blind m i t').0),
  Alike-step (λ x. (render_frame m i x).1) (λ x. (render_frame-blind m i x).1) t t' e,
)

render_round-Alike :
    (m : Motion) (i : ℕ) (t t' : Timeline)
    → Alike t t'
    → Alike (render_round m i t) (render_round m i t')
unfolding render_round clear_timeline
render_round-Alike m i t t' e =
    ap one_more (advance-Alike (m.step_to i) _ _ ((render_frame-Alike m i t t' e).1))
  where
    one_more : Timeline → Timeline
    one_more x = record x { output = x.output + 1 }

render_loop-Alike :
    (m : Motion) (n i : ℕ) (t t' : Timeline)
    → Alike t t'
    → ((render_loop m n i t).0 ≡ (render_loop m n i t').0)
      × Alike ((render_loop m n i t).1) ((render_loop m n i t').1)
unfolding render_loop
render_loop-Alike m zero i t t' e = (refl, e)
render_loop-Alike m (suc n) i t t' e =
    let rest = render_loop-Alike m n (i + 1) _ _ (render_round-Alike m i t t' e) in
    (rw ((render_frame-Alike m i t t' e).0, rest.0) refl, rest.1)

skip-blind :
    (m : Motion) (due capacity : ℕ) (t : Timeline)
    → Alike (skip m due capacity t) (skip m due capacity (clear_timeline t))
unfolding clear_timeline skip
skip-blind m due capacity t =
    branches_lem Alike (ltb capacity (due - t.output)) _ _ _ _
      (ap later (advance-Alike m.skip_to t (clear_timeline t) refl)) refl
  where
    later : Timeline → Timeline
    later x = record x { output = x.output + (due - t.output - capacity) }

note_send-blind :
    (now : ℤ) (t : Timeline) → Alike (note_send now t) (note_send now (clear_timeline t))
unfolding clear_timeline note_send
note_send-blind now t = refl

ready-Alike :
    (m : Motion) (now : ℤ) (due capacity : ℕ) (t t' : Timeline)
    → Alike t t'
    → Alike (note_send now (skip m due capacity t)) (note_send now (skip m due capacity t'))
ready-Alike m now due capacity t t' e =
    Alike-step (note_send now) (note_send-blind now) _ _
      (Alike-step (skip m due capacity) (skip-blind m due capacity) t t' e)

loop-Alike :
    (m : Motion) (due : ℕ) (t t' : Timeline)
    → Alike t t'
    → ((render_loop m (due - t.output) 0 t).0 ≡ (render_loop m (due - t'.output) 0 t').0)
      × Alike ((render_loop m (due - t.output) 0 t).1) ((render_loop m (due - t'.output) 0 t').1)
unfolding clear_timeline
loop-Alike m due t t' e =
    subst
      (λ n.
        ((render_loop m (due - t.output) 0 t).0 ≡ (render_loop m (due - n) 0 t').0)
        × Alike ((render_loop m (due - t.output) 0 t).1) ((render_loop m (due - n) 0 t').1))
      (ap (λ x. x.output) e) (render_loop-Alike m (due - t.output) 0 t t' e)

abbrev Renders : List (ℤ × ℤ) × Timeline → List (ℤ × ℤ) × Timeline → Type 0
Renders r r' = (r.0 ≡ r'.0) × Alike r.1 r'.1

render-blind :
    (m : Motion) (now due : ℤ) (output : Bool) (capacity : ℕ) (t : Timeline)
    → Renders
        (render m now due output capacity t)
        (render m now due output capacity (clear_timeline t))
unfolding render clear_timeline
render-blind m now (negsuc due) output capacity t = (refl, refl)
render-blind m now (pos due) output capacity t =
    branches_lem Renders (t.rate == 0 || not output || capacity == 0 || leb due t.output) _ _ _ _
      (refl, refl) (loop-Alike m due _ _ (ready-Alike m now due capacity t (clear_timeline t) refl))

pub render-Alike :
    (m : Motion) (now due : ℤ) (output : Bool) (capacity : ℕ) (t t' : Timeline)
    → Alike t t'
    → Renders (render m now due output capacity t) (render m now due output capacity t')
render-Alike m now due output capacity t t' e = (
  (render-blind m now due output capacity t).0
      ∙ ap (λ x. (render m now due output capacity x).0) e
      ∙ sym ((render-blind m now due output capacity t').0),
  Alike-step (λ x. (render m now due output capacity x).1)
      (λ x. (render-blind m now due output capacity x).1) t t' e,
)
