-- ===== src/Buffers/Race.antt =====
-- Without that discipline the lease comes too late: the reader can lease a buffer that the capture
-- thread already fills.
use mi_ster_cast.Prelude.{ℕ, ◌<◌, ◌≡◌, refl, ap, none, some, arith}
use mi_ster_cast.Buffers.{
  buffer_count, Reader, Writer, State, load_index, lease, pick, check, publish, start, Conflict,
  Reach, here, next, successor, choose,
}

-- The states of the run: the reader has loaded `n`, and the writer has published `p` since.
abbrev stale : ℕ → ℕ → Writer → State
stale n p w = record { published = p; active = none; reader = Reader.loaded n; writer = w }

-- A whole round of the capture thread while nothing is leased.
round :
    {s : State} (n p : ℕ)
    → Reach s (stale n p Writer.idle)
    → Reach s (stale n (successor p) Writer.idle)
unfolding choose
round n p r =
    next
      (next (next r (pick (stale n p Writer.idle) refl))
        (check (stale n p (Writer.picked (successor p))) (successor p) refl))
      (publish (stale n p (Writer.writing (successor p))) (successor p) refl)

successor_thrice : (n : ℕ) → n < buffer_count → successor (successor (successor n)) ≡ n
unfolding successor
successor_thrice n h = omega arith

-- From the start on any buffer: the reader loads the index, the capture thread publishes two frames
-- and begins a third, and the lease then lands on the buffer that is being filled. So a run to a
-- conflict exists, although every index stays in range.
pub race-reachable : (n : ℕ) → n < buffer_count → (t : State) × Reach (start n) t × Conflict t
unfolding choose
race-reachable n h =
    let third = successor (successor n) in
    (
      record {
        published = third;
        active = some n;
        reader = Reader.reading n;
        writer = Writer.writing (successor third);
      },
      next
          (next
            (next (round n (successor n) (round n n (next here (load_index (start n) refl))))
              (pick (stale n third Writer.idle) refl))
            (check (stale n third (Writer.picked (successor third))) (successor third) refl))
          (lease (stale n third (Writer.writing (successor third))) n refl),
      (n, refl, ap Writer.writing (successor_thrice n h)),
    )
