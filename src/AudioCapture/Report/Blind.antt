-- ===== src/AudioCapture/Report/Blind.antt =====
-- No part of a tick looks at a counter.
use mi_ster_cast.Prelude.Steps.{branches_lem, both}
use mi_ster_cast.Prelude.{
  ℕ, ◌*◌, ◌≡◌, refl, sym, ap, ◌∙◌, true, not, ◌&&◌, Option, List, [], ◌∷◌, length, arith,
  if◌then◌else◌,
}
use mathlib.Core.Path.{subst}
use mi_ster_cast.Prelude.Int.{ℤ, pos}
use mi_ster_cast.AudioPackets.{Packet, no_packets}
use mi_ster_cast.AudioTimeline.{Timeline, reset, rebase_to_now}
use mi_ster_cast.AudioTimeline.Render.{render}
use mi_ster_cast.AudioTimeline.Telemetry.{clear_timeline, Alike, push-Alike, rebase-Alike}
use mi_ster_cast.AudioTimeline.Telemetry.Played.{render-Alike}
use mi_ster_cast.ReceiverClock.{
  Doubles, Clock, reset_clock, observe, on_report, between_reports, settle, due_at, reanchor,
}
use mi_ster_cast.AudioCapture.{
  max_frames, Capture, Tick, take_packet, take_packets, begin_tick, is_behind, demand, send,
}
use mi_ster_cast.AudioCapture.Report.{clear_clock}

-- The state but for the counters and `AudioShedFrames`.
abbrev pub forget : {D : Type 0} → Capture D → Capture D
forget s = record s {
  timeline = clear_timeline s.timeline;
  clock = clear_clock s.clock;
  counters = no_packets;
  converted = 0;
  discarded = 0;
  gated = 0;
  shed = 0;
}

abbrev pub Same : {D : Type 0} → Capture D → Capture D → Type 0
Same s s' = forget s ≡ forget s'

pub Same-step :
    {D : Type 0} (f : Capture D → Capture D)
    → ((s : Capture D) → Same (f s) (f (forget s)))
    → (s s' : Capture D) → Same s s'
    → Same (f s) (f s')
Same-step f blind s s' e = blind s ∙ ap (λ x. forget (f x)) e ∙ sym (blind s')

-- The value and the clock that `due` leaves.
abbrev Dues : {D : Type 0} → ℤ × Clock D → ℤ × Clock D → Type 0
Dues r r' = (r.0 ≡ r'.0) × (clear_clock r.1 ≡ clear_clock r'.1)

abbrev pub Demands : {D : Type 0} → ℤ × Capture D → ℤ × Capture D → Type 0
Demands r r' = (r.0 ≡ r'.0) × Same r.1 r'.1

take_packet-blind :
    {D : Type 0} (k : Tick D) (packet : Packet × Option (ℕ → ℤ)) (s : Capture D)
    → Same (take_packet k packet s) (take_packet k packet (forget s))
unfolding take_packet clear_timeline clear_clock
take_packet-blind {D} k (p, pcm) s =
    branches_lem Same (k.accepting && k.has_buffer && k.format_usable) _ _ _ _
      (ap with_timeline (
        push-Alike pcm p.frames k.channels p.silent p.position (pos p.qpc) (not p.timestamp_error)
          p.discontinuity s.timeline (clear_timeline s.timeline) refl))
      refl
  where
    with_timeline : Timeline → Capture D
    with_timeline t = record (forget s) { timeline = t }

pub take_packets-Same :
    {D : Type 0} (k : Tick D) (packets : List (Packet × Option (ℕ → ℤ))) (s s' : Capture D)
    → Same s s'
    → Same (take_packets k packets s) (take_packets k packets s')
unfolding take_packets
take_packets-Same k [] s s' e = e
take_packets-Same k (packet ∷ packets) s s' e =
    take_packets-Same k packets _ _
      (Same-step (take_packet k packet) (take_packet-blind k packet) s s' e)

module _ {D : Type 0} (ops : Doubles D) where
  due_at-blind :
      (frame : ℕ) (now : ℤ) (c : Clock D)
      → Dues (due_at ops frame now c) (due_at ops frame now (clear_clock c))
  unfolding clear_clock due_at settle on_report between_reports observe
  due_at-blind frame now c = ground arith

  due_at-Dues :
      (frame : ℕ) (now : ℤ) (c c' : Clock D)
      → clear_clock c ≡ clear_clock c'
      → Dues (due_at ops frame now c) (due_at ops frame now c')
  due_at-Dues frame now c c' e = (
    (due_at-blind frame now c).0
        ∙ ap (λ x. (due_at ops frame now x).0) e
        ∙ sym ((due_at-blind frame now c').0),
    (due_at-blind frame now c).1
        ∙ ap (λ x. clear_clock ((due_at ops frame now x).1)) e
        ∙ sym ((due_at-blind frame now c').1),
  )

  reanchor-blind :
      (frame : ℕ) (now : ℤ) (output : ℕ) (c : Clock D)
      → clear_clock (reanchor ops frame now output c)
        ≡ clear_clock (reanchor ops frame now output (clear_clock c))
  unfolding clear_clock reanchor
  reanchor-blind frame now output c = refl

  pub begin_tick-blind :
      (k : Tick D) (s : Capture D) → Same (begin_tick ops k s) (begin_tick ops k (forget s))
  unfolding begin_tick clear_clock clear_timeline reset reset_clock
  begin_tick-blind k s = ground arith

  -- The anchored demand, once the clock has named it.
  settled : Tick D → Capture D → ℤ → Clock D → ℤ × Capture D
  settled k s due clock =
      if is_behind ops due s.timeline
      then (let (due', clock') =
            due_at ops k.display_frame k.now
              (reanchor ops k.display_frame k.now s.timeline.output clock) in
          (due', record s { clock = clock'; timeline = rebase_to_now k.rebased_phase s.timeline }))
      else (due, record s { clock = clock })

  settled-Demands :
      (k : Tick D) (s : Capture D) (due : ℤ) (c c' : Clock D)
      → clear_clock c ≡ clear_clock c'
      → Demands (settled k s due c) (settled k (forget s) due c')
  unfolding settled clear_timeline
  settled-Demands k s due c c' e =
      branches_lem Demands (is_behind ops due s.timeline) _ _ _ _
        (
          anew.0,
          both with_both anew.1
              (rebase-Alike k.rebased_phase s.timeline (clear_timeline s.timeline) refl),
        )
        (refl, ap (λ x. with_both x (clear_timeline s.timeline)) e)
    where
      with_both : Clock D → Timeline → Capture D
      with_both clock timeline = record (forget s) { clock = clock; timeline = timeline }

      anchored : Clock D → Clock D
      anchored = reanchor ops k.display_frame k.now s.timeline.output

      anew :
          Dues
            (due_at ops k.display_frame k.now (anchored c))
            (due_at ops k.display_frame k.now (anchored c'))
      anew = due_at-Dues k.display_frame k.now (anchored c) (anchored c') (
          reanchor-blind k.display_frame k.now s.timeline.output c
          ∙ ap (λ x. clear_clock (anchored x)) e
          ∙ sym (reanchor-blind k.display_frame k.now s.timeline.output c'))

  pub demand-blind :
      (k : Tick D) (s : Capture D) → Demands (demand ops k s) (demand ops k (forget s))
  unfolding demand settled
  demand-blind k s =
      subst (λ x. Demands (settled k s first.0 first.1) (settled k (forget s) x second.1)) dues.0
        (settled-Demands k s first.0 first.1 second.1 dues.1)
    where
      first : ℤ × Clock D
      first = due_at ops k.display_frame k.now s.clock

      second : ℤ × Clock D
      second = due_at ops k.display_frame k.now (clear_clock s.clock)

      dues : Dues first second
      dues = due_at-blind k.display_frame k.now s.clock

  send-blind :
      (k : Tick D) (due : ℤ) (s : Capture D)
      → Same (send ops k (due, s)) (send ops k (due, forget s))
  unfolding send clear_timeline clear_clock
  send-blind k due s = both sent (ap length rendered.0) rendered.1
    where
      sent : ℕ → Timeline → Capture D
      sent n timeline = record (forget s) { timeline = timeline; write_pos = n * 2 }

      rendered :
          ((render k.motion k.now due true max_frames s.timeline).0
            ≡ (render k.motion k.now due true max_frames (clear_timeline s.timeline)).0)
          × Alike
              ((render k.motion k.now due true max_frames s.timeline).1)
              ((render k.motion k.now due true max_frames (clear_timeline s.timeline)).1)
      rendered =
          render-Alike k.motion k.now due true max_frames s.timeline (clear_timeline s.timeline)
            refl

  pub send-demand-blind :
      (k : Tick D) (s : Capture D)
      → Same (send ops k (demand ops k s)) (send ops k (demand ops k (forget s)))
  send-demand-blind k s =
      subst
        (λ due. Same (send ops k (demand ops k s)) (send ops k (due, (demand ops k (forget s)).1)))
        (demand-blind k s).0
        (Same-step (λ x. send ops k ((demand ops k s).0, x)) (send-blind k (demand ops k s).0)
          (demand ops k s).1 (demand ops k (forget s)).1 (demand-blind k s).1)
