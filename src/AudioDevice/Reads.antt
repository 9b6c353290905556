-- ===== src/AudioDevice/Reads.antt =====
-- Which bytes of a packet of the device a tick reads.
use mi_ster_cast.Prelude.{
  ℕ, ◌+◌, ◌*◌, ◌≡◌, ◌<◌, ◌≤◌, refl, ap, ◌∙◌, Bool, true, false, not, Option, none, some, arith,
}
use mathlib.Core.Path.{subst}
use mi_ster_cast.Prelude.Int.{ℤ, pos}
use mi_ster_cast.Prelude.Steps.{Ends}
use mi_ster_cast.AudioPackets.{Packet}
use mi_ster_cast.AudioTimeline.Reads.{push-agree}
use mi_ster_cast.AudioCapture.{Capture, Tick, take_packet}
use mi_ster_cast.AudioDevice.{
  Format, Client, InitAnswers, is_usable, join_com, log_audio_endpoint, take_format,
  init_audio_capture, with_client,
}

-- The format is the one that was tested.
abbrev pub Passes : Option Format → Type 0
Passes none = ⊥
Passes (some f) = is_usable f ≡ true

abbrev pub HasFormat : Client → Type 0
HasFormat c = c.format_usable ≡ true → Passes c.format

-- The floats that lie in the bytes of the packet; a packet has `block_align` bytes for each frame.
abbrev pub AgreeWithin : ℕ → (ℕ → ℤ) → (ℕ → ℤ) → Type 0
AgreeWithin bytes f g = (j : ℕ) → j * 4 + 4 ≤ bytes → f j ≡ g j

pub init-HasFormat :
    (thread : ℕ) (a : InitAnswers) (c : Client)
    → c.format_usable ≡ false
    → Ends (λ ok c'. HasFormat c') (init_audio_capture thread a c)
unfolding init_audio_capture join_com log_audio_endpoint take_format
init-HasFormat thread a c e = ground arith

module _ {D : Type 0} (k : Tick D) (p : Packet) (s : Capture D) (floats floats' : ℕ → ℤ) where
  take_packet-agree :
      (usable : Bool)
      → k.format_usable ≡ usable
      → (usable ≡ true → (j : ℕ) → j < p.frames * k.channels → floats j ≡ floats' j)
      → take_packet k (p, some floats) s ≡ take_packet k (p, some floats') s
  unfolding take_packet
  take_packet-agree false e h = ground (arith, e)
  take_packet-agree true e h =
      rw
        (push-agree floats floats' p.frames k.channels (h refl) p.silent p.position (pos p.qpc)
          (not p.timestamp_error) p.discontinuity s.timeline)
        refl

-- A tick on this device reads of a packet with floats what lies in its bytes.
abbrev pub ReadsWithin : Type 0 → Client → Type 0
ReadsWithin D c =
    (f : Format)
    → c.format ≡ some f
    → (k k' : Tick D) → with_client c k ≡ some k'
    → (p : Packet) (s : Capture D) (floats floats' : ℕ → ℤ)
    → AgreeWithin (p.frames * f.block_align) floats floats'
    → take_packet k' (p, some floats) s ≡ take_packet k' (p, some floats') s

with_client_lem :
    {D : Type 0} (c : Client) (k k' : Tick D)
    → with_client c k ≡ some k'
    → (k'.format_usable ≡ c.format_usable)
      × (k'.channels ≡ elim c.format [ none ↦ 2 | some f ↦ f.channels ])
unfolding with_client
with_client_lem c k k' seen = ground arith

bytes_lem :
    (f : Format) (frames j : ℕ)
    → is_usable f ≡ true
    → j < frames * f.channels
    → j * 4 + 4 ≤ frames * f.block_align
bytes_lem f frames j usable less =
    ground (arith, ap (λ n. frames * n) align ∙ scale_lem frames f.channels)
  where
    align : f.block_align ≡ f.channels * 4
    align = ground (arith, usable)

    scale_lem : (m n : ℕ) → m * (n * 4) ≡ m * n * 4
    scale_lem m n = grind arith

HasFormat-ReadsWithin : {D : Type 0} (c : Client) → HasFormat c → ReadsWithin D c
HasFormat-ReadsWithin {D} c has f e k k' seen p s floats floats' agree =
    take_packet-agree k' p s floats floats' c.format_usable (with_client_lem c k k' seen).0
      (λ usable j less. agree j (
        bytes_lem f p.frames j (subst Passes e (has usable)) (
          subst (λ n. j < p.frames * n)
            ((with_client_lem c k k' seen).1
              ∙ ap (λ o. elim o [ none ↦ 2 | some f ↦ f.channels ]) e)
            less)))

-- After `InitAudioCapture`, as far as it came and whatever it answered: a tick that looks at the
-- device takes a packet to the same state if two sources of its floats agree on the floats that lie
-- in the packet's bytes, `nBlockAlign` for each frame. So what the capture takes from a packet of
-- any number of channels depends on nothing behind the packet's end.
pub init-reads_within :
    {D : Type 0} (thread : ℕ) (a : InitAnswers) (c : Client)
    → c.format_usable ≡ false
    → (ok : Bool) (c' : Client) → init_audio_capture thread a c ≡ some (ok, c')
    → (f : Format) → c'.format ≡ some f
    → (k k' : Tick D) → with_client c' k ≡ some k'
    → (p : Packet) (s : Capture D) (floats floats' : ℕ → ℤ)
    → ((j : ℕ) → j * 4 + 4 ≤ p.frames * f.block_align → floats j ≡ floats' j)
    → take_packet k' (p, some floats) s ≡ take_packet k' (p, some floats') s
init-reads_within {D} thread a c e ok c' result =
    HasFormat-ReadsWithin c'
      (subst (Ends (λ ok c'. HasFormat c')) result (init-HasFormat thread a c e))
