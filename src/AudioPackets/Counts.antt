-- ===== src/AudioPackets/Counts.antt =====
-- What the counters say of the packets.
use mi_ster_cast.Prelude.{
  ℕ, ◌+◌, ◌-◌, ◌^◌, ◌≤◌, ◌<◌, ◌≡◌, refl, ◌∙◌, Bool, true, false, List, [], ◌∷◌, arith,
  if◌then◌else◌, length,
}
use mi_ster_cast.Prelude.Words.{u64}
use mi_ster_cast.AudioPackets.{
  Packet, Counters, count_packet, compare_position, take_position, record_audio_packet,
  record_packets,
}

-- The frames of all packets, and of those that a test picks.
pub frames_of : (Packet → Bool) → List Packet → ℕ
frames_of pick [] = 0
frames_of pick (p ∷ ps) = (if pick p then p.frames else 0) + frames_of pick ps

pub count_of : (Packet → Bool) → List Packet → ℕ
count_of pick [] = 0
count_of pick (p ∷ ps) = (if pick p then 1 else 0) + count_of pick ps

abbrev pub every : Packet → Bool
every p = true

-- The counters `a'` after the packets `ps`, from `a` on: every counter is the 64-bit number of what
-- it names, and each packet is a valid position or a time stamp error.
pub record Tallied (ps : List Packet) (a a' : Counters) : Type 0 where
  pub packets : a'.packets ≡ u64 (a.packets + length ps)
  pub received : a'.received ≡ u64 (a.received + frames_of every ps)
  pub silent : a'.silent ≡ u64 (a.silent + frames_of (λ p. p.silent) ps)
  pub discontinuities :
      a'.discontinuities ≡ u64 (a.discontinuities + count_of (λ p. p.discontinuity) ps)
  pub timestamp_errors :
      a'.timestamp_errors ≡ u64 (a.timestamp_errors + count_of (λ p. p.timestamp_error) ps)
  pub valid_positions :
      u64 (a'.valid_positions + count_of (λ p. p.timestamp_error) ps)
      ≡ u64 (a.valid_positions + length ps)

-- The counters are 64-bit words.
pub record IsWords (a : Counters) : Type 0 where
  pub packets : a.packets < 2 ^ 64
  pub received : a.received < 2 ^ 64
  pub silent : a.silent < 2 ^ 64
  pub discontinuities : a.discontinuities < 2 ^ 64
  pub timestamp_errors : a.timestamp_errors < 2 ^ 64

record_audio_packet-IsWords :
    (p : Packet) (a : Counters) → IsWords a → IsWords (record_audio_packet p a)
unfolding record_audio_packet count_packet compare_position take_position
record_audio_packet-IsWords p a w = ground arith

-- One packet.
packet-Tallied :
    (p : Packet) (a : Counters) → IsWords a → Tallied (p ∷ []) a (record_audio_packet p a)
unfolding record_audio_packet count_packet compare_position take_position frames_of count_of
packet-Tallied p a w = ground arith

Tallied-trans :
    (p : Packet) (ps : List Packet) (a b c : Counters)
    → Tallied (p ∷ []) a b
    → Tallied ps b c
    → Tallied (p ∷ ps) a c
unfolding frames_of count_of
Tallied-trans p ps a b c h t = record {
  packets = omega (arith, h.packets, t.packets);
  received = omega (arith, h.received, t.received);
  silent = omega (arith, h.silent, t.silent);
  discontinuities = omega (arith, h.discontinuities, t.discontinuities);
  timestamp_errors = omega (arith, h.timestamp_errors, t.timestamp_errors);
  valid_positions = omega (arith, h.valid_positions, t.valid_positions);
}

-- Whatever packets come: the counters of packets, received and silent frames, discontinuities and
-- time stamp errors are the 64-bit numbers of what they name, and each packet was counted as a
-- valid position or as a time stamp error.
pub record_packets-Tallied :
    (ps : List Packet) (a : Counters) → IsWords a → Tallied ps a (record_packets ps a)
unfolding record_packets frames_of count_of
record_packets-Tallied [] a w = omega (arith, w)
record_packets-Tallied (p ∷ ps) a w =
    Tallied-trans p ps a (record_audio_packet p a) (record_packets ps (record_audio_packet p a))
      (packet-Tallied p a w)
      (record_packets-Tallied ps (record_audio_packet p a) (record_audio_packet-IsWords p a w))

-- Packets whose time stamps are good and whose positions do not go back, from the position `at` on.
pub Forward : ℕ → List Packet → Type 0
Forward at [] = Unit
Forward at (p ∷ ps) =
    (p.timestamp_error ≡ false)
    × (at ≤ p.position)
    × (p.position + p.frames < 2 ^ 64)
    × Forward (p.position + p.frames) ps

-- Where the packets end.
pub end_of : ℕ → List Packet → ℕ
end_of at [] = at
end_of at (p ∷ ps) = end_of (p.position + p.frames) ps

end_of-le : (at : ℕ) (ps : List Packet) → Forward at ps → at ≤ end_of at ps
unfolding Forward end_of
end_of-le at [] f = omega arith
end_of-le at (p ∷ ps) f =
    let later = end_of-le (p.position + p.frames) ps f.3 in omega (arith, later, f.1)

-- One packet that does not go back.
packet_forward :
    (p : Packet) (a : Counters)
    → a.position_valid ≡ true
    → p.timestamp_error ≡ false
    → a.expected_position ≤ p.position
    → p.position + p.frames < 2 ^ 64
    → a.position_gaps + (p.position - a.expected_position) < 2 ^ 64
    → ((record_audio_packet p a).position_valid ≡ true)
      × ((record_audio_packet p a).expected_position ≡ p.position + p.frames)
      × ((record_audio_packet p a).position_gaps
          ≡ a.position_gaps + (p.position - a.expected_position))
      × ((record_audio_packet p a).position_regressions ≡ a.position_regressions)
unfolding record_audio_packet count_packet compare_position take_position
packet_forward p a v e f small g = ground arith

-- While time stamps are good and no position goes back, the device's positions are accounted for:
-- the frames of the packets and the frames that were counted as gaps add up to the way from the
-- expected position to the end of the last packet, which is expected then, and no regression is
-- counted.
pub record_packets-Forward :
    (ps : List Packet) (a : Counters) (at : ℕ)
    → a.position_valid ≡ true
    → a.expected_position ≡ at
    → Forward at ps
    → a.position_gaps + (end_of at ps - at) < 2 ^ 64
    → ((record_packets ps a).position_gaps + frames_of every ps + at
        ≡ a.position_gaps + end_of at ps)
      × ((record_packets ps a).position_regressions ≡ a.position_regressions)
      × ((record_packets ps a).expected_position ≡ end_of at ps)
unfolding record_packets frames_of end_of Forward
record_packets-Forward [] a at v e f g = (omega arith, refl, e)
record_packets-Forward (p ∷ ps) a at v e f g =
    let after = record_audio_packet p a in
    let ahead = end_of-le (p.position + p.frames) ps f.3 in
    let (valid, expected, gaps, kept) =
      packet_forward p a v f.0 (omega (arith, f.1)) f.2 (omega (arith, ahead, f.1)) in
    let (span, kept_rest, end) =
      record_packets-Forward ps after (p.position + p.frames) valid expected f.3
        (omega (arith, gaps, ahead, f.1)) in
    (omega (arith, span, gaps, ahead, f.1, e), kept_rest ∙ kept, end)
