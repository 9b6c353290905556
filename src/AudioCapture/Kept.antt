-- ===== src/AudioCapture/Kept.antt =====
-- What a tick keeps of the timeline up to the render.
use mi_ster_cast.Prelude.{
  ℕ, ◌^◌, ◌≤◌, ◌<◌, ◌≡◌, refl, ◌∙◌, Bool, true, false, not, ◌&&◌, ◌||◌, Option, List, [], ◌∷◌, ltb,
  ◌==◌, if◌then◌else◌,
}
use mi_ster_cast.Prelude.Int.{ℤ, pos}
use mi_ster_cast.AudioPackets.{Packet}
use mi_ster_cast.AudioTimeline.{Timeline, slot_count, reset, push, is_missing}
use mi_ster_cast.AudioTimeline.View.{IsValid}
use mi_ster_cast.AudioTimeline.Reset.{reset-IsValid}
use mi_ster_cast.AudioTimeline.Push.{push-Placed}
use mi_ster_cast.ReceiverClock.{Doubles}
use mi_ster_cast.AudioCapture.{Capture, Tick, take_packet, take_packets, begin_tick}

-- The ring is still one, and nothing of it has been played.
pub record Kept (t t' : Timeline) : Type 0 where
  pub valid : IsValid t'
  pub phase : t'.phase ≡ t.phase

Kept-trans : (t u v : Timeline) → Kept t u → Kept u v → Kept t v
Kept-trans t u v p q = record { valid = q.valid; phase = q.phase ∙ p.phase }

push-Kept :
    (pcm : Option (ℕ → ℤ)) (frames channels : ℕ) (silent : Bool) (position : ℕ) (timestamp : ℤ)
    (valid discontinuity : Bool) (t : Timeline)
    → IsValid t
    → Kept t (push pcm frames channels silent position timestamp valid discontinuity t)
push-Kept pcm frames channels silent position timestamp valid discontinuity t v =
    split (t.rate == 0 || not valid || is_missing pcm silent || channels == 0) refl
  where
    refused : Bool
    refused = t.rate == 0 || not valid || is_missing pcm silent || channels == 0

    split :
        (b : Bool)
        → refused ≡ b
        → Kept t (push pcm frames channels silent position timestamp valid discontinuity t)
    split true e =
        rw ((push-Placed pcm frames channels silent position timestamp valid discontinuity t v).1 e)
          (record { valid = v; phase = refl })
    split false e =
        let placed =
          (push-Placed pcm frames channels silent position timestamp valid discontinuity t v).0 e in
        record { valid = placed.valid; phase = placed.phase }

Kept-if :
    {D : Type 0} (b : Bool) (t : Timeline) (x y : Capture D)
    → Kept t x.timeline
    → Kept t y.timeline
    → Kept t (if b then x else y).timeline
Kept-if true t x y p q = p
Kept-if false t x y p q = q

module _ {D : Type 0} (k : Tick D) where
  take_packet-Kept :
      (p : Packet) (pcm : Option (ℕ → ℤ)) (s : Capture D)
      → IsValid s.timeline
      → Kept s.timeline (take_packet k (p, pcm) s).timeline
  unfolding take_packet
  take_packet-Kept p pcm s v =
      Kept-if (k.accepting && k.has_buffer && k.format_usable) s.timeline _ _
        (push-Kept pcm p.frames k.channels p.silent p.position (pos p.qpc) (not p.timestamp_error)
          p.discontinuity s.timeline v)
        (record { valid = v; phase = refl })

  take_packets-Kept :
      (packets : List (Packet × Option (ℕ → ℤ))) (s : Capture D)
      → IsValid s.timeline
      → Kept s.timeline (take_packets k packets s).timeline
  unfolding take_packets
  take_packets-Kept [] s v = record { valid = v; phase = refl }
  take_packets-Kept ((p, pcm) ∷ packets) s v =
      let one = take_packet-Kept p pcm s v in
      Kept-trans _ _ _ one (take_packets-Kept packets (take_packet k (p, pcm) s) one.valid)

module _ {D : Type 0} (ops : Doubles D) (k : Tick D) where
  begin_tick-IsValid :
      (s : Capture D)
      → slot_count k.sample_rate k.buffer_ms < 2 ^ 32
      → k.buffer_ms ≤ 2000
      → IsValid s.timeline
      → IsValid (begin_tick ops k s).timeline
  unfolding begin_tick
  begin_tick-IsValid s few short v = split (
      k.accepting
      && (not s.active
          || not (k.mode_revision == s.mode_revision)
          || not (k.reconnect_epoch == s.reconnect_epoch)
          || ltb k.display_frame s.last_display_frame))
    where
      split :
          (fresh : Bool)
          → IsValid (
              if fresh then reset k.sample_rate k.buffer_ms k.reset_time s.timeline else s.timeline)
      split true = (reset-IsValid k.sample_rate k.buffer_ms k.reset_time s.timeline few short).0
      split false = v

  -- From a ring that keeps its invariant, a tick whose sample rate gives fewer than 2 ^ 32 slots and
  -- whose delay is at most 2000 ms reaches the render with a ring that keeps it, whether the tick
  -- starts the timeline anew and whatever its packets are. The packets do not move the source phase.
  pub taken-Kept :
      (s : Capture D)
      → slot_count k.sample_rate k.buffer_ms < 2 ^ 32
      → k.buffer_ms ≤ 2000
      → IsValid s.timeline
      → let begun = begin_tick ops k s in
        Kept begun.timeline (take_packets k k.packets begun).timeline
  taken-Kept s few short v =
      take_packets-Kept k k.packets (begin_tick ops k s) (begin_tick-IsValid s few short v)
