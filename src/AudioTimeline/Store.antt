-- ===== src/AudioTimeline/Store.antt =====
-- One sample into the slot of its index.
use native.Mathlib.Nat.{mod-lt}
use native.Mathlib.Decide.{ℕ_discrete}
use mi_ster_cast.Prelude.{
  ℕ, ◌+◌, ◌%◌, ◌≤◌, ◌<◌, ◌≡◌, ◌≢◌, refl, sym, ap, ◌∙◌, Bool, true, false, some, List, length,
  get_or, set, arith, if◌then◌else◌, inl, inr, length-set, Option-cases,
}
use mi_ster_cast.Prelude.Int.{ℤ}
use mi_ster_cast.Prelude.Words.{u32}
use mi_ster_cast.AudioTimeline.{Slot, free, Timeline, holds, store_sample}
use mi_ster_cast.AudioTimeline.View.{
  read_slots, occupied, count, IsValid, slot-set_at, slot-set_ne, count-set, occupied-none,
  occupied-some, count-le, holds-some, holds-not, same_slot, read-same, read-none, read-some,
  some_inj,
}

-- The map of waiting samples after one more.
pub record Stored (n : ℕ) (sample : ℤ × ℤ) (t t' : Timeline) : Type 0 where
  pub valid : IsValid t'
  pub here : read_slots t'.slots n ≡ some sample
  pub kept : (m : ℕ) → m ≢ n → read_slots t'.slots m ≡ read_slots t.slots m
  pub phase : t'.phase ≡ t.phase
  pub size : length t'.slots ≡ length t.slots

module _ (n : ℕ) (sample : ℤ × ℤ) (t : Timeline) (v : IsValid t) (from : t.phase ≤ n)
    (to : n < t.phase + length t.slots) where
  abbrev old_slot : Slot
  old_slot = get_or t.slots (n % length t.slots) free

  abbrev new_slot : Slot
  new_slot = record { index = some n; left = sample.0; right = sample.1 }

  abbrev new_slots : List Slot
  new_slots = set t.slots (n % length t.slots) new_slot

  k-lt : n % length t.slots < length t.slots
  k-lt = mod-lt n v.some_slots

  size : length new_slots ≡ length t.slots
  size = length-set t.slots (n % length t.slots) new_slot

  -- The slot of the index holds that index or nothing.
  own_slot : (m : ℕ) → old_slot.index ≡ some m → m ≡ n
  own_slot m e =
      let old = v.placed (n % length t.slots) m k-lt e in
      same_slot (length t.slots) t.phase m n v.some_slots old.0 old.1 from old.2 to

  vacant : old_slot.index ≢ some n → occupied old_slot ≡ 0
  vacant other = elim (Option-cases old_slot.index) [
    | inl e ↦ occupied-none old_slot e
    | inr found ↦ absurd (other (found.1 ∙ ap some (own_slot found.0 found.1)))
  ]

  new_count :
      (b : Bool)
      → holds old_slot.index n ≡ b
      → (if b then t.pending else u32 (t.pending + 1)) ≡ count new_slots
  new_count true e = omega (
    arith,
    v.counted,
    count-set t.slots (n % length t.slots) new_slot k-lt,
    occupied-some old_slot n (holds-some _ n e),
    occupied-some new_slot n refl,
  )
  new_count false e = omega (
    arith,
    v.counted,
    v.few,
    size,
    count-le new_slots,
    count-set t.slots (n % length t.slots) new_slot k-lt,
    vacant (holds-not _ n e),
    occupied-some new_slot n refl,
  )

  new_placed :
      (j m : ℕ)
      → j < length new_slots
      → (get_or new_slots j free).index ≡ some m
      → (m % length new_slots ≡ j) × (t.phase ≤ m) × (m < t.phase + length new_slots)
  new_placed j m l e = elim (ℕ_discrete (n % length t.slots) j) [
    | yes same ↦
        let this = some_inj n m (
          sym (ap (λ s. s.index) (slot-set_at t.slots (n % length t.slots) j new_slot same k-lt))
          ∙ e) in
        (
          ap (λ x. x % length new_slots) (sym this) ∙ ap (λ s. n % s) size ∙ same,
          omega (arith, this, from),
          omega (arith, this, to, size),
        )
    | no other ↦
        let kept = ap (λ s. s.index) (slot-set_ne t.slots (n % length t.slots) j new_slot other) in
        let old = v.placed j m (omega (arith, size)) (sym kept ∙ e) in
        (rw size old.0, old.1, omega (arith, old, size))
  ]

  new_slot-at :
      (m : ℕ)
      → n % length t.slots ≡ m % length t.slots
      → get_or new_slots (m % length new_slots) free ≡ new_slot
  new_slot-at m same =
      slot-set_at t.slots (n % length t.slots) (m % length new_slots) new_slot
        (same ∙ ap (λ s. m % s) (sym size)) k-lt

  new_kept : (m : ℕ) → m ≢ n → read_slots new_slots m ≡ read_slots t.slots m
  new_kept m other = elim (ℕ_discrete (n % length t.slots) (m % length t.slots)) [
    | yes same ↦
        read-none new_slots m
          (λ e. other (sym (some_inj n m (sym (ap (λ s. s.index) (new_slot-at m same)) ∙ e))))
        ∙ sym (
            read-none t.slots m
              (λ e. other (own_slot m (ap (λ i. (get_or t.slots i free).index) same ∙ e))))
    | no away ↦
        read-same new_slots t.slots m size
          (slot-set_ne t.slots (n % length t.slots) (m % length t.slots) new_slot away)
  ]

  pub store-Stored : Stored n sample t (store_sample n sample t)
  unfolding store_sample
  store-Stored = record {
    valid = record {
      some_slots = omega (arith, size, v.some_slots);
      few = omega (arith, size, v.few);
      placed = new_placed;
      counted = new_count (holds old_slot.index n) refl;
    };
    here =
        read-some new_slots n (ap (λ s. s.index) (new_slot-at n refl))
        ∙ ap (λ s. some (s.left, s.right)) (new_slot-at n refl);
    kept = new_kept;
    phase = refl;
    size = size;
  }
