-- ===== src/AudioCapture/Bounds.antt =====
-- What a tick hands to the renderer.
use mi_ster_cast.Prelude.{
  ℕ, ◌*◌, ◌≤◌, ◌≡◌, refl, ◌∙◌, Bool, true, false, ◌&&◌, Option, List, [], ◌∷◌, length, arith,
  if◌then◌else◌,
}
use mi_ster_cast.Prelude.Int.{ℤ}
use mi_ster_cast.AudioPackets.{Packet}
use mi_ster_cast.AudioTimeline.Render.{render}
use mi_ster_cast.AudioTimeline.Bounds.{render-le}
use mi_ster_cast.ReceiverClock.{Doubles}
use mi_ster_cast.AudioCapture.{
  max_frames, Capture, Tick, take_packet, take_packets, begin_tick, demand, send, tick,
}

module _ {D : Type 0} (k : Tick D) where
  take_packet-write_pos :
      (packet : Packet × Option (ℕ → ℤ)) (s : Capture D)
      → (take_packet k packet s).write_pos ≡ s.write_pos
  unfolding take_packet
  take_packet-write_pos packet s =
      split (k.accepting && k.has_buffer && k.format_usable) _ _ refl refl
    where
      split :
          (b : Bool) (x y : Capture D)
          → x.write_pos ≡ s.write_pos
          → y.write_pos ≡ s.write_pos
          → (if b then x else y).write_pos ≡ s.write_pos
      split true x y p q = p
      split false x y p q = q

  -- The packets alone hand nothing to the renderer.
  take_packets-write_pos :
      (packets : List (Packet × Option (ℕ → ℤ))) (s : Capture D)
      → (take_packets k packets s).write_pos ≡ s.write_pos
  unfolding take_packets
  take_packets-write_pos [] s = refl
  take_packets-write_pos (packet ∷ packets) s =
      take_packets-write_pos packets (take_packet k packet s) ∙ take_packet-write_pos packet s

module _ {D : Type 0} (ops : Doubles D) (k : Tick D) where
  -- At most one send's worth, in whole stereo frames.
  abbrev Sendable : Bool × Capture D → Type 0
  Sendable result = (frames : ℕ) × (result.1.write_pos ≡ 2 * frames) × (frames ≤ max_frames)

  Sendable-if :
      (b : Bool) (x y : Bool × Capture D) → Sendable x → Sendable y → Sendable (if b then x else y)
  Sendable-if true x y p q = p
  Sendable-if false x y p q = q

  send-Sendable : (due : ℤ) (s : Capture D) → Sendable (true, send ops k (due, s))
  unfolding send
  send-Sendable due s = (
    length (render k.motion k.now due true max_frames s.timeline).0,
    omega arith,
    render-le k.motion k.now due true max_frames s.timeline,
  )

  -- A tick, in whatever state and whether a call of the client fails, leaves a whole number of stereo
  -- frames to send, at most 4096 of them.
  pub tick-Sendable : (s : Capture D) → Sendable (tick ops k s)
  unfolding tick begin_tick
  tick-Sendable s =
      let taken = take_packets k k.packets (begin_tick ops k s) in
      let none_yet = take_packets-write_pos k k.packets (begin_tick ops k s) in
      let empty : Sendable (true, taken) = (0, none_yet, omega arith) in
      Sendable-if k.client_fails (false, taken) _ empty
        (Sendable-if (k.accepting && k.has_buffer) _ (true, taken)
          (send-Sendable (demand ops k taken).0 (demand ops k taken).1) empty)
