-- ===== src/AudioCapture.antt =====
-- `TickAudioCapture` and `StartAudioCapture` of AudioCapture.h: the packets of the capture client go
-- into the timeline, and the timeline is rendered for the receiver's clock. The device calls and the
-- clock of the system are arguments.
pub mod Bounds
pub mod Demand
pub mod Discards
pub mod Kept
pub mod Report
pub mod Samples
mod Tests
use mi_ster_cast.Prelude.{
  ℕ, ◌+◌, ◌-◌, ◌*◌, ◌%◌, ◌^◌, Bool, true, false, not, ◌&&◌, ◌||◌, Option, List, [], ◌∷◌, length,
  ltb, ◌==◌, if◌then◌else◌,
}
use mi_ster_cast.Prelude.Int.{ℤ, pos, ltb_ℤ}
use mi_ster_cast.Prelude.Words.{u32, u64}
use mi_ster_cast.AudioPackets.{Packet, Counters, no_packets, record_audio_packet}
use mi_ster_cast.AudioTimeline.{Timeline, reset, push, rebase_to_now}
use mi_ster_cast.AudioTimeline.Render.{Motion, render}
use mi_ster_cast.ReceiverClock.{Doubles, Clock, reset_clock, due_at, reanchor}

-- `AUDIO_MAX_SAMPLES / 2`
abbrev pub max_frames : ℕ
max_frames = 4096

-- The globals; `converted`, `discarded` and `gated` are fields of `audioCounters`.
pub record Capture (D : Type 0) : Type 0 where
  pub timeline : Timeline
  pub clock : Clock D
  pub active : Bool
  pub mode_revision : ℕ
  pub reconnect_epoch : ℕ
  pub last_display_frame : ℕ
  pub counters : Counters
  pub converted : ℕ
  pub discarded : ℕ
  pub gated : ℕ
  pub shed : ℕ
  pub write_pos : ℕ

-- The arguments of one tick, and what it finds: the packets that are there, with their floats, and
-- whether a call of the capture client fails after them; the buffer, the format, the clock; and what
-- the doubles of the timeline decide.
pub record Tick (D : Type 0) : Type 0 where
  pub accepting : Bool
  pub buffer_ms : ℕ
  pub display_frame : ℕ
  pub field_ms : D
  pub mode_revision : ℕ
  pub reconnect_epoch : ℕ
  pub sample_rate : ℕ
  pub has_buffer : Bool
  pub format_usable : Bool
  pub channels : ℕ
  pub packets : List (Packet × Option (ℕ → ℤ))
  pub client_fails : Bool
  pub reset_time : ℤ
  pub now : ℤ
  pub rebased_phase : Option ℕ
  pub motion : Motion

-- `StartAudioCapture`, whether the client starts or not.
pub start_capture : {D : Type 0} → ℤ → Capture D → Capture D
start_capture now s = record s {
  active = false;
  mode_revision = 0;
  reconnect_epoch = 0;
  last_display_frame = 0;
  timeline = reset 0 0 now s.timeline;
  write_pos = 0;
  shed = 0;
  counters = no_packets;
  converted = 0;
  discarded = 0;
  gated = 0;
}

-- The frames of a push that were late or rejected.
abbrev pub dropped : Timeline → Timeline → ℕ
dropped before after =
    u64 (after.late + 2 ^ 64 - before.late + (after.rejected + 2 ^ 64 - before.rejected))

-- A round of the packet loop.
unfoldable pub take_packet : {D : Type 0} → Tick D → Packet × Option (ℕ → ℤ) → Capture D → Capture D
take_packet k (p, pcm) s =
    let counted = record s { counters = record_audio_packet p s.counters } in
    if k.accepting && k.has_buffer && k.format_usable
    then (let timeline =
          push pcm p.frames k.channels p.silent p.position (pos p.qpc) (not p.timestamp_error)
            p.discontinuity s.timeline in
        let lost = dropped s.timeline timeline in
        record counted {
          timeline = timeline;
          discarded = u64 (s.discarded + lost);
          converted = u64 (s.converted + (p.frames + 2 ^ 64 - lost));
          shed = u32 (s.shed + lost);
        })
    else record counted { gated = u64 (s.gated + p.frames) }

pub take_packets : {D : Type 0} → Tick D → List (Packet × Option (ℕ → ℤ)) → Capture D → Capture D
take_packets k [] s = s
take_packets k (packet ∷ packets) s = take_packets k packets (take_packet k packet s)

module _ {D : Type 0} (ops : Doubles D) where
  -- The head of the tick, up to the packets.
  pub begin_tick : Tick D → Capture D → Capture D
  begin_tick k s =
      let reset_clocks =
        not s.active
        || not (k.mode_revision == s.mode_revision)
        || not (k.reconnect_epoch == s.reconnect_epoch)
        || ltb k.display_frame s.last_display_frame in
      let fresh = k.accepting && reset_clocks in
      record s {
        write_pos = 0;
        timeline =
            if fresh then reset k.sample_rate k.buffer_ms k.reset_time s.timeline else s.timeline;
        clock =
            if fresh
            then reset_clock ops k.sample_rate k.buffer_ms k.field_ms k.display_frame k.reset_time
            else s.clock;
        mode_revision = if fresh then k.mode_revision else s.mode_revision;
        reconnect_epoch = if fresh then k.reconnect_epoch else s.reconnect_epoch;
        active = k.accepting;
        last_display_frame = k.display_frame;
      }

  -- Whether the receiver is so far ahead that one send cannot serve it.
  abbrev pub is_behind : ℤ → Timeline → Bool
  is_behind due t = ltb_ℤ (pos (t.output + max_frames)) due

  -- The demand of the tick, anchored anew if the timeline is too far behind it.
  pub demand : Tick D → Capture D → ℤ × Capture D
  demand k s =
      let (due, clock) = due_at ops k.display_frame k.now s.clock in
      if is_behind due s.timeline
      then (let (due', clock') =
            due_at ops k.display_frame k.now
              (reanchor ops k.display_frame k.now s.timeline.output clock) in
          (due', record s { clock = clock'; timeline = rebase_to_now k.rebased_phase s.timeline }))
      else (due, record s { clock = clock })

  -- The render of the tick.
  pub send : Tick D → ℤ × Capture D → Capture D
  send k (due, s) =
      let rendered = render k.motion k.now due true max_frames s.timeline in
      record s { timeline = rendered.1; write_pos = length rendered.0 * 2 }

  -- `TickAudioCapture`
  pub tick : Tick D → Capture D → Bool × Capture D
  tick k s =
      let taken = take_packets k k.packets (begin_tick k s) in
      if k.client_fails
      then (false, taken)
      else if k.accepting && k.has_buffer
      then (true, send k (demand k taken))
      else (true, taken)
