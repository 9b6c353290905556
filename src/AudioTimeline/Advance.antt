-- ===== src/AudioTimeline/Advance.antt =====
-- `advance` drops what the source phase has passed, and nothing else.
use mi_ster_cast.Prelude.{
  ℕ, zero, suc, ◌+◌, ◌-◌, ◌%◌, ◌≤◌, ◌<◌, ◌≡◌, refl, sym, ◌∙◌, Bool, true, false, none, List, [],
  ◌∷◌, length, get_or, map, arith, leb, if◌then◌else◌, inl, inr, length-map, leb→le,
}
use mi_ster_cast.AudioTimeline.{Slot, free, Timeline, release_all, emptied, advance}
use mi_ster_cast.AudioTimeline.View.{
  read_slots, count, IsValid, occupied-none, read_outside, read-none, none-not,
}
use mi_ster_cast.AudioTimeline.Release.{Held-weaken, release_all-Cleared}

-- After a jump past the whole ring.
slot-map-emptied : (xs : List Slot) (k : ℕ) → (get_or (map emptied xs) k free).index ≡ none
slot-map-emptied [] k = refl
slot-map-emptied (x ∷ xs) zero = refl
slot-map-emptied (x ∷ xs) (suc k) = slot-map-emptied xs k

count-map-emptied : (xs : List Slot) → count (map emptied xs) ≡ 0
unfolding count
count-map-emptied [] = refl
count-map-emptied (x ∷ xs) = omega (arith, occupied-none (emptied x) refl, count-map-emptied xs)

-- The map of waiting samples after a restriction to the indices from `new` on.
pub record Restricted (new : ℕ) (t t' : Timeline) : Type 0 where
  pub valid : IsValid t'
  pub kept : (m : ℕ) → new ≤ m → read_slots t'.slots m ≡ read_slots t.slots m
  pub dropped : (m : ℕ) → m < new → read_slots t'.slots m ≡ none
  pub phase : t'.phase ≡ new
  pub output : t'.output ≡ t.output
  pub size : length t'.slots ≡ length t.slots

module _ (new : ℕ) (t : Timeline) (v : IsValid t) (forward : t.phase ≤ new) where
  abbrev moved : Timeline
  moved = record t { phase = new }

  advance-jumps :
      length t.slots ≤ new - t.phase
      → Restricted new t (record moved { slots = map emptied t.slots; pending = 0 })
  advance-jumps far = record {
    valid = record {
      some_slots = omega (arith, length-map t.slots emptied, v.some_slots);
      few = omega (arith, length-map t.slots emptied, v.few);
      placed = λ k n l e. absurd (none-not n (sym (slot-map-emptied t.slots k) ∙ e));
      counted = sym (count-map-emptied t.slots);
    };
    kept = λ m le.
        empty m
        ∙ sym (
            read_outside t.slots t.pending t.phase (t.phase + length t.slots) m v
              (inr (omega (arith, far, forward, le))));
    dropped = λ m lt. empty m;
    phase = refl;
    output = refl;
    size = length-map t.slots emptied;
  }
    where
      empty : (m : ℕ) → read_slots (map emptied t.slots) m ≡ none
      empty m =
          read-none (map emptied t.slots) m (λ e.
            none-not m (sym (slot-map-emptied t.slots (m % length (map emptied t.slots))) ∙ e))

  advance-steps : Restricted new t (release_all (new - t.phase) t.phase moved)
  advance-steps =
      let c = release_all-Cleared (new - t.phase) t.phase (t.phase + length t.slots) moved v in
      let after = release_all (new - t.phase) t.phase moved in
      record {
        valid =
            Held-weaken after.slots after.pending (t.phase + (new - t.phase)) after.phase
              (t.phase + length t.slots) (after.phase + length after.slots) c.held
              (omega (arith, c.phase, forward)) (omega (arith, c.phase, c.size, forward));
        kept = λ m le. c.kept m (inr (omega (arith, forward, le)));
        dropped = λ m lt.
            read_outside after.slots after.pending (t.phase + (new - t.phase))
              (t.phase + length t.slots) m c.held (inl (omega (arith, forward, lt)));
        phase = c.phase;
        output = c.output;
        size = c.size;
      }

-- An advance of the source phase to a later index keeps the timeline valid. As a map it is
-- restricted: the samples from the new index on wait as before, the earlier ones are gone, however
-- far the advance goes.
pub advance-Restricted :
    (new : ℕ) (t : Timeline) → IsValid t → t.phase ≤ new → Restricted new t (advance new t)
unfolding advance
advance-Restricted new t v forward = split (leb (length t.slots) (new - t.phase)) refl
  where
    split :
        (b : Bool)
        → leb (length t.slots) (new - t.phase) ≡ b
        → Restricted new t (
            if b
            then record (moved new t v forward) { slots = map emptied t.slots; pending = 0 }
            else release_all (new - t.phase) t.phase (moved new t v forward))
    split true far = advance-jumps new t v forward (leb→le _ _ far)
    split false near = advance-steps new t v forward
