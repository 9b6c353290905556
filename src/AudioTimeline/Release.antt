-- ===== src/AudioTimeline/Release.antt =====
-- The loop of `advance`, which clears the indices one after the other.
use native.Mathlib.Nat.{mod-lt}
use native.Mathlib.Decide.{ℕ_discrete}
use mi_ster_cast.Prelude.{
  ℕ, zero, suc, ◌+◌, ◌-◌, ◌%◌, ◌^◌, ◌≤◌, ◌<◌, ◌≡◌, ◌≢◌, refl, sym, ap, ◌∙◌, Bool, true, false,
  Option, none, some, List, length, get_or, set, arith, if◌then◌else◌, ◌⊎◌, length-set,
}
use mi_ster_cast.Prelude.Words.{u32}
use mi_ster_cast.AudioTimeline.{Slot, free, Timeline, holds, release, release_all}
use mi_ster_cast.AudioTimeline.View.{
  read_slots, Held, slot-set_at, slot-set_ne, count-set, occupied-none, occupied-some, count-le,
  holds-some, holds-not, read-same, read-none, none-not, some_inj,
}

-- What clearing the indices from `lo` up to `lo'` does to the slots.
pub record Cleared (lo lo' hi : ℕ) (t t' : Timeline) : Type 0 where
  pub held : Held t'.slots t'.pending lo' hi
  pub size : length t'.slots ≡ length t.slots
  pub kept : (m : ℕ) → (m < lo) ⊎ (lo' ≤ m) → read_slots t'.slots m ≡ read_slots t.slots m
  pub phase : t'.phase ≡ t.phase
  pub output : t'.output ≡ t.output

pub Held-weaken :
    (slots : List Slot) (pending lo lo' hi hi' : ℕ)
    → Held slots pending lo hi
    → lo' ≤ lo
    → hi ≤ hi'
    → Held slots pending lo' hi'
Held-weaken slots pending lo lo' hi hi' h p q = record {
  some_slots = h.some_slots;
  few = h.few;
  placed = λ k n l e.
      (let old = h.placed k n l e in (old.0, omega (arith, old, p), omega (arith, old, q)));
  counted = h.counted;
}

past : (n m : ℕ) → n ≤ m → m ≢ n → n + 1 ≤ m
past n m le ne = omega arith

apart : (n m : ℕ) → (m < n) ⊎ (n + 1 ≤ m) → ¬ (◌≡◌ {A = Option ℕ} (some n) (some m))
apart n m o e = omega (arith, o, some_inj n m e)

own-index :
    (slots : List Slot) (n m j : ℕ)
    → m % length slots ≡ j
    → (get_or slots j free).index ≡ some m
    → m ≡ n
    → (get_or slots (n % length slots) free).index ≡ some n
own-index slots n m j o e q =
    ap (λ i. (get_or slots i free).index) (ap (λ x. x % length slots) (sym q) ∙ o) ∙ e ∙ ap some q

module _ (n hi : ℕ) (t : Timeline) (h : Held t.slots t.pending n hi) where
  k-lt : n % length t.slots < length t.slots
  k-lt = mod-lt n h.some_slots

  abbrev freed : Slot
  freed = record (get_or t.slots (n % length t.slots) free) { index = none }

  abbrev cleared_slots : List Slot
  cleared_slots = set t.slots (n % length t.slots) freed

  abbrev cleared : Timeline
  cleared = record t { pending = u32 (t.pending + 2 ^ 32 - 1); slots = cleared_slots }

  release-hit :
      (get_or t.slots (n % length t.slots) free).index ≡ some n → Cleared n (n + 1) hi t cleared
  release-hit this = record {
    held = record {
      some_slots = omega (arith, length-set t.slots (n % length t.slots) freed, h.some_slots);
      few = omega (arith, length-set t.slots (n % length t.slots) freed, h.few);
      placed = placed;
      counted = omega (
        arith,
        h.counted,
        h.few,
        count-le t.slots,
        count-set t.slots (n % length t.slots) freed k-lt,
        occupied-some (get_or t.slots (n % length t.slots) free) n this,
        occupied-none freed refl,
      );
    };
    size = length-set t.slots (n % length t.slots) freed;
    kept = kept;
    phase = refl;
    output = refl;
  }
    where
      placed :
          (j m : ℕ)
          → j < length cleared_slots
          → (get_or cleared_slots j free).index ≡ some m
          → (m % length cleared_slots ≡ j) × (n + 1 ≤ m) × (m < hi)
      placed j m l e = elim (ℕ_discrete (n % length t.slots) j) [
        | yes same ↦
            let emptied_slot = slot-set_at t.slots (n % length t.slots) j freed same k-lt in
            let gone : ◌≡◌ {A = Option ℕ} none (some m) =
              sym (ap (λ s. s.index) emptied_slot) ∙ e in
            absurd (none-not m gone)
        | no other ↦
            let kept = ap (λ s. s.index) (slot-set_ne t.slots (n % length t.slots) j freed other) in
            let size = length-set t.slots (n % length t.slots) freed in
            let old = h.placed j m (omega (arith, size)) (sym kept ∙ e) in
            (
              rw size old.0,
              past n m old.1 (λ q. other (ap (λ x. x % length t.slots) (sym q) ∙ old.0)),
              old.2,
            )
      ]

      kept : (m : ℕ) → (m < n) ⊎ (n + 1 ≤ m) → read_slots cleared_slots m ≡ read_slots t.slots m
      kept m other = elim (ℕ_discrete (n % length t.slots) (m % length t.slots)) [
        | yes same ↦
            let size = length-set t.slots (n % length t.slots) freed in
            let after =
              slot-set_at t.slots (n % length t.slots) (m % length cleared_slots) freed
                (same ∙ ap (λ s. m % s) (sym size)) k-lt in
            read-none cleared_slots m (λ e. none-not m (sym (ap (λ s. s.index) after) ∙ e))
            ∙ sym (
                read-none t.slots m (λ e.
                  apart n m other (sym this ∙ ap (λ i. (get_or t.slots i free).index) same ∙ e)))
        | no away ↦
            read-same cleared_slots t.slots m (length-set t.slots (n % length t.slots) freed)
              (slot-set_ne t.slots (n % length t.slots) (m % length t.slots) freed away)
      ]

  release-miss :
      (get_or t.slots (n % length t.slots) free).index ≢ some n → Cleared n (n + 1) hi t t
  release-miss other = record {
    held = record {
      some_slots = h.some_slots;
      few = h.few;
      placed = λ j m l e.
          (let old = h.placed j m l e in
            (old.0, past n m old.1 (λ q. other (own-index t.slots n m j old.0 e q)), old.2));
      counted = h.counted;
    };
    size = refl;
    kept = λ m o. refl;
    phase = refl;
    output = refl;
  }

  release-Cleared : Cleared n (n + 1) hi t (release n t)
  unfolding release
  release-Cleared = split (holds (get_or t.slots (n % length t.slots) free).index n) refl
    where
      split :
          (b : Bool)
          → holds (get_or t.slots (n % length t.slots) free).index n ≡ b
          → Cleared n (n + 1) hi t (if b then cleared else t)
      split true e = release-hit (holds-some _ n e)
      split false e = release-miss (holds-not _ n e)

-- The loop clears the `steps` indices from `lo` on.
pub release_all-Cleared :
    (steps lo hi : ℕ) (t : Timeline)
    → Held t.slots t.pending lo hi
    → Cleared lo (lo + steps) hi t (release_all steps lo t)
unfolding release_all
release_all-Cleared zero lo hi t h = record {
  held = Held-weaken t.slots t.pending lo (lo + 0) hi hi h (omega arith) (omega arith);
  size = refl;
  kept = λ m o. refl;
  phase = refl;
  output = refl;
}
release_all-Cleared (suc steps) lo hi t h =
    let first = release-Cleared lo hi t h in
    let rest = release_all-Cleared steps (lo + 1) hi (release lo t) first.held in
    record {
      held =
          Held-weaken (release_all steps (lo + 1) (release lo t)).slots
            (release_all steps (lo + 1) (release lo t)).pending (lo + 1 + steps) (lo + suc steps) hi
            hi rest.held (omega arith) (omega arith);
      size = rest.size ∙ first.size;
      kept = λ m o. rest.kept m (ground (arith, o)) ∙ first.kept m (ground (arith, o));
      phase = rest.phase ∙ first.phase;
      output = rest.output ∙ first.output;
    }
