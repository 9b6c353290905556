-- ===== src/AudioTimeline/Heard.antt =====
-- What the loop of `render` plays, in terms of the map of waiting samples.
use mi_ster_cast.Prelude.{
  ℕ, zero, suc, ◌+◌, ◌%◌, ◌≤◌, ◌<◌, ◌≡◌, refl, ap, ◌∙◌, Bool, true, false, Option, none, some, List,
  length, get_or, arith, if◌then◌else◌,
}
use mi_ster_cast.Prelude.Int.{ℤ, pos}
use mi_ster_cast.Prelude.Words.{u64}
use mi_ster_cast.AudioTimeline.{Slot, free, Timeline, holds}
use mi_ster_cast.AudioTimeline.View.{read_slots, IsValid}
use mi_ster_cast.AudioTimeline.Advance.{advance-Restricted}
use mi_ster_cast.AudioTimeline.Render.{Motion, render_frame, render_round, render_loop}

-- A sample that waits at the phase is mixed with its successor if that waits too, else played as it
-- is; where none waits there is silence.
pub blend : (ℤ → ℤ → ℤ) → Option (ℤ × ℤ) → Option (ℤ × ℤ) → ℤ × ℤ
blend mix none next = (pos 0, pos 0)
blend mix (some a) none = a
blend mix (some a) (some b) = (mix (a.0) (b.0), mix (a.1) (b.1))

-- What a map of samples plays at a phase in round `i`.
abbrev pub heard : Motion → ℕ → (ℕ → Option (ℤ × ℤ)) → ℕ → ℤ × ℤ
heard m i view phase = blend (m.mix i) (view phase) (view (phase + 1))

render_frame-heard :
    (m : Motion) (i : ℕ) (t : Timeline)
    → (render_frame m i t).0 ≡ heard m i (read_slots t.slots) t.phase
unfolding render_frame read_slots blend
render_frame-heard m i t =
    split (holds (get_or t.slots (t.phase % length t.slots) free).index t.phase)
      (holds (get_or t.slots ((t.phase + 1) % length t.slots) free).index (t.phase + 1))
  where
    first : Slot
    first = get_or t.slots (t.phase % length t.slots) free

    second : Slot
    second = get_or t.slots ((t.phase + 1) % length t.slots) free

    sample : Slot → ℤ × ℤ
    sample s = (s.left, s.right)

    played : (a b : Bool) → (ℤ × ℤ) × Timeline
    played a b =
        if a
        then (
          (if b
              then (m.mix i first.left second.left, m.mix i first.right second.right)
              else (first.left, first.right)),
          t,
        )
        else ((pos 0, pos 0), record t { inserted_silence = u64 (t.inserted_silence + 1) })

    split :
        (a b : Bool)
        → (played a b).0
          ≡ blend
              (m.mix i)
              (if a then some (sample first) else none)
              (if b then some (sample second) else none)
    split true true = refl
    split true false = refl
    split false b = refl

-- The source phase never goes back.
pub record Onward (m : Motion) (phase i : ℕ) : Type 0 where
  pub first : phase ≤ m.step_to i
  pub steps : (j : ℕ) → m.step_to j ≤ m.step_to (suc j)

-- Where the phase is `k` rounds after round `i`.
unfoldable pub phase_at : Motion → ℕ → ℕ → ℕ → ℕ
phase_at m i phase zero = phase
phase_at m i phase (suc k) = m.step_to (i + k)

pub steps-le : (m : Motion) (phase i k : ℕ) → Onward m phase i → m.step_to i ≤ m.step_to (i + k)
steps-le m phase i zero on = omega (arith, ap m.step_to (add_zero i))
  where
    add_zero : (n : ℕ) → n + 0 ≡ n
    add_zero n = omega arith
steps-le m phase i (suc k) on =
    omega (arith, steps-le m phase i k on, on.steps (i + k), ap m.step_to (add_suc i k))
  where
    add_suc : (a b : ℕ) → a + suc b ≡ suc (a + b)
    add_suc a b = omega arith

-- A frame only counts its silence.
record Same (t t' : Timeline) : Type 0 where
  slots : t'.slots ≡ t.slots
  pending : t'.pending ≡ t.pending
  phase : t'.phase ≡ t.phase
  output : t'.output ≡ t.output

render_frame-Same : (m : Motion) (i : ℕ) (t : Timeline) → Same t ((render_frame m i t).1)
unfolding render_frame
render_frame-Same m i t =
    split (holds (get_or t.slots (t.phase % length t.slots) free).index t.phase) _
  where
    split :
        (a : Bool) (sample : ℤ × ℤ)
        → let framed : (ℤ × ℤ) × Timeline =
            if a
            then (sample, t)
            else ((pos 0, pos 0), record t { inserted_silence = u64 (t.inserted_silence + 1) }) in
          Same t (framed.1)
    split true sample = record { slots = refl; pending = refl; phase = refl; output = refl }
    split false sample = record { slots = refl; pending = refl; phase = refl; output = refl }

-- One round.
record Rounded (to : ℕ) (t t' : Timeline) : Type 0 where
  valid : IsValid t'
  phase : t'.phase ≡ to
  output : t'.output ≡ t.output + 1
  kept : (n : ℕ) → to ≤ n → read_slots t'.slots n ≡ read_slots t.slots n

render_round-Rounded :
    (m : Motion) (i : ℕ) (t : Timeline)
    → IsValid t
    → t.phase ≤ m.step_to i
    → Rounded (m.step_to i) t (render_round m i t)
unfolding render_round
render_round-Rounded m i t v forward =
    let same = render_frame-Same m i t in
    let t₁ = (render_frame m i t).1 in
    let r =
      advance-Restricted (m.step_to i) t₁ (rw (same.slots, same.pending, same.phase) v)
        (omega (arith, same.phase, forward)) in
    record {
      valid = r.valid;
      phase = r.phase;
      output = omega (arith, r.output, same.output);
      kept = λ n le. r.kept n le ∙ ap (λ s. read_slots s n) same.slots;
    }

-- What the loop plays, in terms of the map at its start.
pub record Plays (m : Motion) (n i : ℕ) (t : Timeline) (result : List (ℤ × ℤ) × Timeline)
    : Type 0 where
  pub valid : IsValid result.1
  pub size : length result.0 ≡ n
  pub output : result.1.output ≡ t.output + n
  pub plays :
      (k : ℕ)
      → k < n
      → get_or result.0 k (pos 0, pos 0)
        ≡ heard m (i + k) (read_slots t.slots) (phase_at m i t.phase k)

pub heard-same :
    (m : Motion) (i lo p : ℕ) (view view' : ℕ → Option (ℤ × ℤ))
    → ((n : ℕ) → lo ≤ n → view' n ≡ view n)
    → lo ≤ p
    → heard m i view' p ≡ heard m i view p
heard-same m i lo p view view' same le = rw (same p le, same (p + 1) (omega arith)) refl

-- The phases of the rounds after the first.
phase_at-next :
    (m : Motion) (i phase k : ℕ) → phase_at m (i + 1) (m.step_to i) k ≡ phase_at m i phase (suc k)
unfolding phase_at
phase_at-next m i phase zero = ap m.step_to (plus_zero i)
  where
    plus_zero : (n : ℕ) → n ≡ n + 0
    plus_zero n = omega arith
phase_at-next m i phase (suc k) = ap m.step_to (shift i k)
  where
    shift : (a b : ℕ) → a + 1 + b ≡ a + suc b
    shift a b = omega arith

-- The loop plays, in its round `k`, what the map at its start holds at the phase of that round.
pub render_loop-Plays :
    (m : Motion) (n i : ℕ) (t : Timeline)
    → IsValid t
    → Onward m t.phase i
    → Plays m n i t (render_loop m n i t)
unfolding render_loop phase_at
render_loop-Plays m zero i t v on = record {
  valid = v;
  size = refl;
  output = omega arith;
  plays = λ k l. absurd (omega arith);
}
render_loop-Plays m (suc n) i t v on =
    let round = render_round-Rounded m i t v on.first in
    let t₁ = render_round m i t in
    let later : Onward m t₁.phase (i + 1) = record {
      first = omega (arith, round.phase, on.steps i, step_suc i);
      steps = on.steps;
    } in
    let rest = render_loop-Plays m n (i + 1) t₁ round.valid later in
    record {
      valid = rest.valid;
      size = ap suc rest.size;
      output = omega (arith, rest.output, round.output);
      plays = plays round rest;
    }
  where
    step_suc : (j : ℕ) → m.step_to (suc j) ≡ m.step_to (j + 1)
    step_suc j = ap m.step_to (suc_plus j)
      where
        suc_plus : (a : ℕ) → suc a ≡ a + 1
        suc_plus a = omega arith

    plays :
        Rounded (m.step_to i) t (render_round m i t)
        → Plays m n (i + 1) (render_round m i t) (render_loop m n (i + 1) (render_round m i t))
        → (k : ℕ) → k < suc n
        → get_or (render_loop m (suc n) i t).0 k (pos 0, pos 0)
          ≡ heard m (i + k) (read_slots t.slots) (phase_at m i t.phase k)
    plays round rest zero l =
        render_frame-heard m i t ∙ ap (λ r. heard m r (read_slots t.slots) t.phase) (plus_zero i)
      where
        plus_zero : (a : ℕ) → a ≡ a + 0
        plus_zero a = omega arith
    plays round rest (suc k) l =
        let t₁ = render_round m i t in
        let p = phase_at m i t.phase (suc k) in
        rest.plays k (omega arith)
        ∙ ap (λ q. heard m (i + 1 + k) (read_slots t₁.slots) (phase_at m (i + 1) q k)) round.phase
        ∙ ap (heard m (i + 1 + k) (read_slots t₁.slots)) (phase_at-next m i t.phase k)
        ∙ heard-same m (i + 1 + k) (m.step_to i) p (read_slots t.slots) (read_slots t₁.slots)
            round.kept (steps-le m t.phase i k on)
        ∙ ap (λ r. heard m r (read_slots t.slots) p) (shift i k)
      where
        shift : (a b : ℕ) → a + 1 + b ≡ a + suc b
        shift a b = omega arith
