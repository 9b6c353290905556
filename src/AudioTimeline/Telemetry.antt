-- ===== src/AudioTimeline/Telemetry.antt =====
-- The counters of `AudioTimeline`, which `ReportAudioCapture` clears, have no influence on the rest.
pub mod Played
use mi_ster_cast.Prelude.Steps.{branches_lem}
use mi_ster_cast.Prelude.{
  ℕ, zero, suc, ◌+◌, ◌-◌, ◌*◌, ◌/◌, ◌≡◌, refl, sym, ap, ◌∙◌, Bool, true, false, not, ◌&&◌, ◌||◌,
  Option, none, some, List, map, [], ◌∷◌, length, arith, ltb, leb, ◌==◌, if◌then◌else◌,
}
use mathlib.Core.Path.{subst}
use mi_ster_cast.Prelude.Words.{u64}
use mi_ster_cast.Prelude.Int.{ℤ, pos, negsuc, ◌+ℤ◌}
use mi_ster_cast.AudioTimeline.{
  is_contiguous, sample_at, emptied, floats_of, is_missing, Timeline, store_sample, place,
  place_all, frame_sample, push, release, release_all, advance, rebase_to_now,
}
use mi_ster_cast.AudioTimeline.Render.{
  Motion, render_frame, render_round, render_loop, skip, note_send, render,
}

-- `counters = {}`
unfoldable pub clear_timeline : Timeline → Timeline
clear_timeline t = record t {
  late = 0;
  rejected = 0;
  rebased = 0;
  inserted_silence = 0;
  skipped = 0;
  max_send_gap = 0;
}

-- Two timelines that differ in their counters only.
abbrev pub Alike : Timeline → Timeline → Type 0
Alike t t' = clear_timeline t ≡ clear_timeline t'

-- A step that looks at no counter keeps two such timelines alike.
pub Alike-step :
    (f : Timeline → Timeline)
    → ((t : Timeline) → Alike (f t) (f (clear_timeline t)))
    → (t t' : Timeline) → Alike t t'
    → Alike (f t) (f t')
Alike-step f blind t t' e = blind t ∙ ap (λ x. clear_timeline (f x)) e ∙ sym (blind t')

place-blind :
    (start : ℤ) (sample : ℤ × ℤ) (t : Timeline)
    → Alike (place start sample t) (place start sample (clear_timeline t))
unfolding clear_timeline place store_sample
place-blind (negsuc n) sample t = refl
place-blind (pos n) sample t = ground arith

place_all-Alike :
    (samples : ℕ → ℤ × ℤ) (start : ℤ) (n i : ℕ) (t t' : Timeline)
    → Alike t t'
    → Alike (place_all samples start n i t) (place_all samples start n i t')
unfolding place_all
place_all-Alike samples start zero i t t' e = e
place_all-Alike samples start (suc n) i t t' e = place_all-Alike samples start n (i + 1) _ _ (
    Alike-step (place (start +ℤ pos i) (samples i)) (place-blind (start +ℤ pos i) (samples i)) t t'
      e)

push-blind :
    (pcm : Option (ℕ → ℤ)) (frames channels : ℕ) (silent : Bool) (position : ℕ) (timestamp : ℤ)
    (valid discontinuity : Bool) (t : Timeline)
    → let f : Timeline → Timeline =
        push pcm frames channels silent position timestamp valid discontinuity in
      Alike (f t) (f (clear_timeline t))
unfolding clear_timeline push is_contiguous sample_at
push-blind pcm frames channels silent position timestamp valid discontinuity t =
    branches_lem Alike (t.rate == 0 || not valid || is_missing pcm silent || channels == 0) _ _ _ _
      refl
      (place_all-Alike (frame_sample (floats_of pcm) silent channels) start frames 0 (ready t)
        (ready (clear_timeline t)) refl)
  where
    due : ℤ
    due = sample_at t timestamp +ℤ pos t.delay

    start : ℤ
    start = if is_contiguous t position discontinuity due then t.packet_end else due

    ready : Timeline → Timeline
    ready x = record x {
      rebased =
          if not (is_contiguous t position discontinuity due) && x.position_valid
          then u64 (x.rebased + 1)
          else x.rebased;
      packet_end = start +ℤ pos frames;
      expected_position = u64 (position + frames);
      position_valid = true;
      last_packet_end = timestamp +ℤ pos (frames * 10000000 / t.rate);
    }

release-clear : (n : ℕ) (t : Timeline) → release n (clear_timeline t) ≡ clear_timeline (release n t)
unfolding clear_timeline release
release-clear n t = ground arith

release_all-clear :
    (n i : ℕ) (t : Timeline)
    → release_all n i (clear_timeline t) ≡ clear_timeline (release_all n i t)
unfolding release_all
release_all-clear zero i t = refl
release_all-clear (suc n) i t =
    ap (release_all n (i + 1)) (release-clear i t) ∙ release_all-clear n (i + 1) (release i t)

advance-clear :
    (new : ℕ) (t : Timeline) → advance new (clear_timeline t) ≡ clear_timeline (advance new t)
unfolding clear_timeline advance
advance-clear new t = split (leb (length t.slots) (new - t.phase))
  where
    moved : Timeline
    moved = record t { phase = new }

    emptied_all : Timeline
    emptied_all = record moved { slots = map emptied t.slots; pending = 0 }

    split :
        (far : Bool)
        → (if far
            then clear_timeline emptied_all
            else release_all (new - t.phase) t.phase (clear_timeline moved))
          ≡ clear_timeline (if far then emptied_all else release_all (new - t.phase) t.phase moved)
    split true = refl
    split false = release_all-clear (new - t.phase) t.phase moved

rebase-clear :
    (new : Option ℕ) (t : Timeline)
    → rebase_to_now new (clear_timeline t) ≡ clear_timeline (rebase_to_now new t)
unfolding rebase_to_now
rebase-clear none t = refl
rebase-clear (some new) t = advance-clear new t

pub advance-Alike :
    (new : ℕ) (t t' : Timeline) → Alike t t' → Alike (advance new t) (advance new t')
advance-Alike new t t' e = sym (advance-clear new t) ∙ ap (advance new) e ∙ advance-clear new t'

pub push-Alike :
    (pcm : Option (ℕ → ℤ)) (frames channels : ℕ) (silent : Bool) (position : ℕ) (timestamp : ℤ)
    (valid discontinuity : Bool) (t t' : Timeline)
    → Alike t t'
    → let f : Timeline → Timeline =
        push pcm frames channels silent position timestamp valid discontinuity in
      Alike (f t) (f t')
push-Alike pcm frames channels silent position timestamp valid discontinuity =
    Alike-step (push pcm frames channels silent position timestamp valid discontinuity)
      (push-blind pcm frames channels silent position timestamp valid discontinuity)

pub rebase-Alike :
    (new : Option ℕ) (t t' : Timeline)
    → Alike t t'
    → Alike (rebase_to_now new t) (rebase_to_now new t')
rebase-Alike new t t' e = sym (rebase-clear new t) ∙ ap (rebase_to_now new) e ∙ rebase-clear new t'
