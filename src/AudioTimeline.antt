-- ===== src/AudioTimeline.antt =====
-- `AudioTimeline` of AudioTimeline.h: the ring of slots in which the packets' samples wait for the
-- receiver. The source phase is a double of which the slots see only the integer part, so the state
-- keeps that part, and `advance` is told the integer part after the addition. The conversion of a
-- float to a sample is a parameter.
pub mod View
pub mod Reads
pub mod Reset
pub mod Store
pub mod Push
pub mod Drops
pub mod Release
pub mod Advance
pub mod Render
pub mod Bounds
pub mod Heard
pub mod Played
pub mod Telemetry
mod Tests
use mi_ster_cast.Prelude.{
  ℕ, zero, suc, ◌+◌, ◌-◌, ◌*◌, ◌/◌, ◌%◌, ◌^◌, min, max, Bool, true, false, not, ◌&&◌, ◌||◌, Option,
  none, some, List, length, get_or, set, replicate, map, ltb, leb, ◌==◌, if◌then◌else◌,
}
use mi_ster_cast.Prelude.Int.{ℤ, pos, negsuc, ◌+ℤ◌, ◌-ℤ◌, ltb_ℤ, pos_part, neg_part}
use mi_ster_cast.Prelude.Words.{u32, u64}

-- `Slot`; the index -1 is `none`.
pub record Slot : Type 0 where
  pub index : Option ℕ
  pub left : ℤ
  pub right : ℤ

abbrev pub free : Slot
free = record { index = none; left = pos 0; right = pos 0 }

-- The fields but the rate of the correction; `phase` is int64_t(m_sourcePhase).
pub record Timeline : Type 0 where
  pub slots : List Slot
  pub rate : ℕ
  pub pending : ℕ
  pub epoch : ℤ
  pub delay : ℕ
  pub lead : ℕ
  pub packet_end : ℤ
  pub last_render : ℤ
  pub last_packet_end : ℤ
  pub output : ℕ
  pub phase : ℕ
  pub expected_position : ℕ
  pub position_valid : Bool
  pub late : ℕ
  pub rejected : ℕ
  pub rebased : ℕ
  pub inserted_silence : ℕ
  pub skipped : ℕ
  pub max_send_gap : ℕ

-- `m_slots.size()` after a reset.
unfoldable pub slot_count : ℕ → ℕ → ℕ
slot_count rate delay_ms = max 1 (rate * u32 (delay_ms + 250) / 1000)

-- `reset`; it leaves `m_packetEnd` and `m_expectedPosition`, which only a valid position reads.
unfoldable pub reset : ℕ → ℕ → ℤ → Timeline → Timeline
reset rate delay_ms now t = record t {
  rate = rate;
  epoch = now;
  delay = rate * delay_ms / 1000;
  lead = rate * min (delay_ms / 2) 40 / 1000;
  phase = 0;
  output = 0;
  pending = 0;
  position_valid = false;
  last_render = now;
  last_packet_end = pos 0;
  late = 0;
  rejected = 0;
  rebased = 0;
  inserted_silence = 0;
  skipped = 0;
  max_send_gap = 0;
  slots = replicate (slot_count rate delay_ms) free;
}

-- Division and remainder of int64_t by a positive number, towards zero.
pub scale : ℕ → ℤ → ℤ
scale rate (pos n) = pos (n / 10000000 * rate + n % 10000000 * rate / 10000000)
scale rate (negsuc n) = pos 0 -ℤ pos (suc n / 10000000 * rate + suc n % 10000000 * rate / 10000000)

-- `sampleAt`
pub sample_at : Timeline → ℤ → ℤ
sample_at t timestamp = scale t.rate (timestamp -ℤ t.epoch)

-- `slot.index == index`
abbrev pub holds : Option ℕ → ℕ → Bool
holds none n = false
holds (some i) n = i == n

-- A sample into the slot of its index.
pub store_sample : ℕ → ℤ × ℤ → Timeline → Timeline
store_sample n sample t =
    let k = n % length t.slots in
    record t {
      pending = if holds (get_or t.slots k free).index n then t.pending else u32 (t.pending + 1);
      slots = set t.slots k (record { index = some n; left = sample.0; right = sample.1 });
    }

-- One round of the loop of `push`, with the frame's index.
pub place : ℤ → ℤ × ℤ → Timeline → Timeline
place (negsuc n) sample t = record t { late = u64 (t.late + 1) }
place (pos n) sample t =
    if ltb n t.phase
    then record t { late = u64 (t.late + 1) }
    else if leb (length t.slots) (n - t.phase)
    then record t { rejected = u64 (t.rejected + 1) }
    else store_sample n sample t

-- The loop of `push`: `n` frames from number `i` on.
pub place_all : (ℕ → ℤ × ℤ) → ℤ → ℕ → ℕ → Timeline → Timeline
place_all samples start zero i t = t
place_all samples start (suc n) i t =
    place_all samples start n (i + 1) (place (start +ℤ pos i) (samples i) t)

-- The sample of a frame; `convert` is the conversion of the float at a place in the packet.
pub frame_sample : (ℕ → ℤ) → Bool → ℕ → ℕ → ℤ × ℤ
frame_sample convert silent channels i = (
  if silent then pos 0 else convert (i * channels),
  if silent then pos 0 else convert (i * channels + (if ltb 1 channels then 1 else 0)),
)

-- Whether a packet goes on where the last one ended, within two milliseconds.
pub is_contiguous : Timeline → ℕ → Bool → ℤ → Bool
is_contiguous t position discontinuity start =
    t.position_valid
    && not discontinuity
    && position == t.expected_position
    && (let apart = start -ℤ t.packet_end in leb (pos_part apart + neg_part apart) (t.rate / 500))

-- A packet's data is the null pointer or the converted floats; `!silent && !pcm`.
abbrev pub is_missing : Option (ℕ → ℤ) → Bool → Bool
is_missing none silent = not silent
is_missing (some floats) silent = false

abbrev pub floats_of : Option (ℕ → ℤ) → ℕ → ℤ
floats_of none j = pos 0
floats_of (some floats) j = floats j

-- `push`
pub push :
    Option (ℕ → ℤ)
    → (frames channels : ℕ) → (silent : Bool) → (position : ℕ) → (timestamp : ℤ)
    → (valid discontinuity : Bool) → Timeline
    → Timeline
push pcm frames channels silent position timestamp valid discontinuity t =
    if t.rate == 0 || not valid || is_missing pcm silent || channels == 0
    then record t { rejected = u64 (t.rejected + frames); position_valid = false }
    else (let due = sample_at t timestamp +ℤ pos t.delay in
        let contiguous = is_contiguous t position discontinuity due in
        let start = if contiguous then t.packet_end else due in
        place_all (frame_sample (floats_of pcm) silent channels) start frames 0 (record t {
          rebased = if not contiguous && t.position_valid then u64 (t.rebased + 1) else t.rebased;
          packet_end = start +ℤ pos frames;
          expected_position = u64 (position + frames);
          position_valid = true;
          last_packet_end = timestamp +ℤ pos (frames * 10000000 / t.rate);
        }))

-- One round of the loop of `advance`.
pub release : ℕ → Timeline → Timeline
release n t =
    let k = n % length t.slots in
    let slot = get_or t.slots k free in
    if holds slot.index n
    then record t {
      pending = u32 (t.pending + 2 ^ 32 - 1);
      slots = set t.slots k (record slot { index = none });
    }
    else t

-- The loop of `advance`: `n` indices from `i` on.
pub release_all : ℕ → ℕ → Timeline → Timeline
release_all zero i t = t
release_all (suc n) i t = release_all n (i + 1) (release i t)

abbrev pub emptied : Slot → Slot
emptied slot = record slot { index = none }

-- `advance`, to the new integer part of the source phase.
unfoldable pub advance : ℕ → Timeline → Timeline
advance new t =
    let moved = record t { phase = new } in
    if leb (length t.slots) (new - t.phase)
    then record moved { slots = map emptied t.slots; pending = 0 }
    else release_all (new - t.phase) t.phase moved

-- `rebaseToNow`: `some` of the new integer part of the source phase, if the time is ahead of it.
pub rebase_to_now : Option ℕ → Timeline → Timeline
rebase_to_now none t = t
rebase_to_now (some new) t = advance new t
