-- ===== src/ReceiverClock/Due.antt =====
-- What the clock asks for.
use mi_ster_cast.Prelude.{
  ℕ, ◌+◌, ◌^◌, ◌<◌, ◌≡◌, ◌≢◌, refl, sym, ap, ◌∙◌, Bool, true, false, arith, ltb, ◌==◌,
  if◌then◌else◌, if-false,
}
use mi_ster_cast.Prelude.Int.{ℤ, pos, ◌+ℤ◌, ◌-ℤ◌, ◌≤ℤ◌}
use mi_ster_cast.ReceiverClock.{
  Doubles, Clock, max_ℤ, on_report, between_reports, settle, due_at, reanchor,
}

max_ℤ-le : (a b : ℤ) → (a ≤ℤ max_ℤ a b) × (b ≤ℤ max_ℤ a b)
max_ℤ-le a b = ground arith

≤ℤ-trans : (a b c : ℤ) → a ≤ℤ b → b ≤ℤ c → a ≤ℤ c
≤ℤ-trans a b c p q = omega arith

≤ℤ-refl : (a : ℤ) → a ≤ℤ a
≤ℤ-refl a = omega arith

zero_rate : (n : ℕ) → (n == 0) ≡ true → n ≡ 0
zero_rate n e = ground arith

has_rate : (n : ℕ) → n ≢ 0 → (n == 0) ≡ false
has_rate n h = ground arith

no_report : (n : ℕ) → ltb n n ≡ false
no_report n = ground arith

self-sub : (a : ℤ) → a -ℤ a ≡ pos 0
unfolding ◌-ℤ◌
self-sub a = ground arith

max_self : (a : ℤ) → max_ℤ a a ≡ a
max_self a = ground arith

pos-add : (n m : ℕ) → pos n +ℤ pos m ≡ pos (n + m)
unfolding ◌+ℤ◌
pos-add n m = ground arith

module _ {D : Type 0} (ops : Doubles D) where
  -- What one call does to the demand.
  abbrev Demands : Clock D → ℤ × Clock D → Type 0
  Demands c result =
      (c.due ≤ℤ result.1.due)
      × (result.1.lead ≡ c.lead)
      × (result.1.rate ≡ c.rate)
      × (c.rate ≢ 0
          → (result.0 ≡ result.1.due) × (ops.llround result.1.played +ℤ pos c.lead ≤ℤ result.0))

  settle-Demands :
      (now : ℤ) (c c' : Clock D)
      → c'.due ≡ c.due
      → c'.lead ≡ c.lead
      → c'.rate ≡ c.rate
      → Demands c ((settle ops now c').due, settle ops now c')
  unfolding settle
  settle-Demands now c c' due lead rate =
      let bounds = max_ℤ-le c'.due (ops.llround c'.played +ℤ pos c'.lead) in
      (rw (sym due) (bounds.0), lead, rate, λ on. (refl, rw (sym lead) (bounds.1)))

  -- One call: the demand does not fall, the lead and the rate stay, and a clock with a rate answers
  -- its demand, which is at least the lead past what it believes was played.
  pub due_at-Demands : (frame : ℕ) (now : ℤ) (c : Clock D) → Demands c (due_at ops frame now c)
  unfolding due_at on_report between_reports
  due_at-Demands frame now c = split (c.rate == 0) refl (ltb c.last_frame frame)
    where
      split :
          (off : Bool)
          → (c.rate == 0) ≡ off
          → (fresh : Bool)
          → Demands c (
              if off
              then (pos 0, c)
              else if fresh
              then (
                (settle ops now (on_report ops frame now c)).due,
                settle ops now (on_report ops frame now c),
              )
              else (
                (settle ops now (between_reports ops now c)).due,
                settle ops now (between_reports ops now c),
              ))
      split true e fresh = (≤ℤ-refl c.due, refl, refl, λ on. absurd (on (zero_rate c.rate e)))
      split false e true = settle-Demands now c (on_report ops frame now c) refl refl refl
      split false e false = settle-Demands now c (between_reports ops now c) refl refl refl

  -- What the clock needs of the doubles: integers below 2 ^ 53 are exact, and the samples of no time
  -- at all change nothing.
  pub record IsExact : Type 0 where
    pub round_int : (n : ℕ) → n < 2 ^ 53 → ops.llround (ops.of_int (pos n)) ≡ pos n
    pub no_time :
        (d : D) (rate : ℕ)
        → ops.add d (
            ops.div
              (ops.mul (ops.of_int (pos 0)) (ops.of_int (pos rate)))
              (ops.of_int (pos 10000000)))
          ≡ d

  -- Right after the clock was anchored anew at an output, it asks for exactly the lead past that
  -- output, so that the backlog that led to the anchoring is gone.
  pub reanchor-due_at :
      (frame : ℕ) (now : ℤ) (output_frames : ℕ) (c : Clock D)
      → IsExact
      → c.rate ≢ 0
      → output_frames < 2 ^ 53
      → (due_at ops frame now (reanchor ops frame now output_frames c)).0
        ≡ pos (output_frames + c.lead)
  unfolding due_at reanchor between_reports settle
  reanchor-due_at frame now output_frames c exact on small =
      ap (λ (result : ℤ × Clock D). result.0)
        (if-false _ _ (has_rate c.rate on) ∙ if-false _ _ (no_report frame))
      ∙ demand
    where
      anchored : Clock D
      anchored = reanchor ops frame now output_frames c

      played : (between_reports ops now anchored).played ≡ ops.of_int (pos output_frames)
      played = rw (self-sub now) (exact.no_time (ops.of_int (pos output_frames)) c.rate)

      demand :
          (settle ops now (between_reports ops now anchored)).due ≡ pos (output_frames + c.lead)
      demand =
          ap (λ d. max_ℤ (pos (output_frames + c.lead)) (ops.llround d +ℤ pos c.lead)) played
          ∙ ap (λ x. max_ℤ (pos (output_frames + c.lead)) (x +ℤ pos c.lead))
              (exact.round_int output_frames small)
          ∙ ap (max_ℤ (pos (output_frames + c.lead))) (pos-add output_frames c.lead)
          ∙ max_self (pos (output_frames + c.lead))
