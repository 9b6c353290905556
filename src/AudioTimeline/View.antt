-- ===== src/AudioTimeline/View.antt =====
-- The timeline as a map from indices to samples, and what holds of its slots.
use native.Mathlib.Nat.{mod-lt}
use mi_ster_cast.Prelude.{
  ℕ, zero, suc, ◌+◌, ◌%◌, ◌^◌, ◌≤◌, ◌<◌, ◌≡◌, ◌≢◌, refl, ap, true, false, Option, none, some, List,
  [], ◌∷◌, length, get_or, set, arith, if◌then◌else◌, ◌⊎◌,
}
use mi_ster_cast.Prelude.Int.{ℤ}
use mi_ster_cast.AudioTimeline.{Slot, free, Timeline, holds}

-- The sample that waits at an index.
unfoldable pub read_slots : List Slot → ℕ → Option (ℤ × ℤ)
read_slots slots n =
    let slot = get_or slots (n % length slots) free in
    if holds slot.index n then some (slot.left, slot.right) else none

-- How many slots hold a sample.
pub occupied : Slot → ℕ
occupied slot = elim slot.index [ none ↦ 0 | some n ↦ 1 ]

unfoldable pub count : List Slot → ℕ
count [] = 0
count (slot ∷ slots) = occupied slot + count slots

-- The samples that wait lie in the window from `lo` to `hi`, each in the slot of its index, and
-- `pending` counts them.
pub record Held (slots : List Slot) (pending lo hi : ℕ) : Type 0 where
  pub some_slots : 0 < length slots
  pub few : length slots < 2 ^ 32
  pub placed :
      (k n : ℕ)
      → k < length slots
      → (get_or slots k free).index ≡ some n
      → (n % length slots ≡ k) × (lo ≤ n) × (n < hi)
  pub counted : pending ≡ count slots

-- The window starts at the source phase and is as long as the ring.
abbrev pub IsValid : Timeline → Type 0
IsValid t = Held t.slots t.pending t.phase (t.phase + length t.slots)

pub none-not : (m : ℕ) → ¬ (◌≡◌ {A = Option ℕ} none (some m))
none-not m e = cc e

some_value : Option ℕ → ℕ
some_value none = 0
some_value (some x) = x

pub some_inj : (n m : ℕ) → ◌≡◌ {A = Option ℕ} (some n) (some m) → n ≡ m
unfolding some_value
some_inj n m e = ap some_value e

pub slot-set_at :
    (xs : List Slot) (k j : ℕ) (v : Slot) → k ≡ j → k < length xs → get_or (set xs k v) j free ≡ v
slot-set_at [] k j v e h = absurd (omega arith)
slot-set_at (x ∷ xs) zero zero v e h = refl
slot-set_at (x ∷ xs) zero (suc j) v e h = absurd (omega arith)
slot-set_at (x ∷ xs) (suc k) zero v e h = absurd (omega arith)
slot-set_at (x ∷ xs) (suc k) (suc j) v e h = slot-set_at xs k j v (omega arith) (omega arith)

pub slot-set_ne :
    (xs : List Slot) (k j : ℕ) (v : Slot) → k ≢ j → get_or (set xs k v) j free ≡ get_or xs j free
slot-set_ne [] k j v e = refl
slot-set_ne (x ∷ xs) zero zero v e = absurd (e refl)
slot-set_ne (x ∷ xs) zero (suc j) v e = refl
slot-set_ne (x ∷ xs) (suc k) zero v e = refl
slot-set_ne (x ∷ xs) (suc k) (suc j) v e = slot-set_ne xs k j v (λ q. e (ap suc q))

pub count-set :
    (xs : List Slot) (k : ℕ) (v : Slot)
    → k < length xs
    → count (set xs k v) + occupied (get_or xs k free) ≡ count xs + occupied v
unfolding count
count-set [] k v h = absurd (omega arith)
count-set (x ∷ xs) zero v h = omega arith
count-set (x ∷ xs) (suc k) v h = omega (arith, count-set xs k v (omega arith))

pub occupied-none : (slot : Slot) → slot.index ≡ none → occupied slot ≡ 0
unfolding occupied
occupied-none slot e = rw e refl

pub occupied-some : (slot : Slot) (n : ℕ) → slot.index ≡ some n → occupied slot ≡ 1
unfolding occupied
occupied-some slot n e = rw e refl

occupied-le : (slot : Slot) → occupied slot ≤ 1
unfolding occupied
occupied-le slot = ground arith

pub count-le : (xs : List Slot) → count xs ≤ length xs
unfolding count
count-le [] = omega arith
count-le (x ∷ xs) = omega (arith, occupied-le x, count-le xs)

pub holds-some : (o : Option ℕ) (n : ℕ) → holds o n ≡ true → o ≡ some n
holds-some none n e = cc
holds-some (some i) n e = ap some (ground arith)

pub holds-not : (o : Option ℕ) (n : ℕ) → holds o n ≡ false → o ≢ some n
holds-not none n e = λ q. cc q
holds-not (some i) n e = λ q. ground arith

-- Two waiting indices of one slot are the same, as the window is no longer than the ring.
pub same_slot :
    (size lo n m : ℕ)
    → 0 < size
    → n % size ≡ m % size
    → lo ≤ n
    → lo ≤ m
    → n < lo + size
    → m < lo + size
    → n ≡ m
same_slot size lo n m p e a b c d = grind arith

-- The reading of an index depends on its slot alone.
pub read-same :
    (xs ys : List Slot) (m : ℕ)
    → length xs ≡ length ys
    → get_or xs (m % length ys) free ≡ get_or ys (m % length ys) free
    → read_slots xs m ≡ read_slots ys m
unfolding read_slots
read-same xs ys m size same = rw (size, same) refl

pub read-none :
    (xs : List Slot) (m : ℕ)
    → (get_or xs (m % length xs) free).index ≢ some m
    → read_slots xs m ≡ none
unfolding read_slots
read-none xs m other = rw (not-holds _ m other) refl
  where
    not-holds : (o : Option ℕ) (n : ℕ) → o ≢ some n → holds o n ≡ false
    not-holds none n e = refl
    not-holds (some i) n e = ground arith

pub read-some :
    (xs : List Slot) (m : ℕ)
    → (get_or xs (m % length xs) free).index ≡ some m
    → read_slots xs m
      ≡ some ((get_or xs (m % length xs) free).left, (get_or xs (m % length xs) free).right)
unfolding read_slots
read-some xs m this = rw (does-hold _ m this) refl
  where
    does-hold : (o : Option ℕ) (n : ℕ) → o ≡ some n → holds o n ≡ true
    does-hold none n e = cc e
    does-hold (some i) n e = ground arith

-- Nothing waits outside the window.
pub read_outside :
    (slots : List Slot) (pending lo hi m : ℕ)
    → Held slots pending lo hi
    → (m < lo) ⊎ (hi ≤ m)
    → read_slots slots m ≡ none
read_outside slots pending lo hi m h out = read-none slots m λ e.
    (let here = h.placed (m % length slots) m (mod-lt m h.some_slots) e in omega (arith, here, out))
