-- ===== src/VideoCapture/Wake/Kept.antt =====
-- No frame is slept on.
use mi_ster_cast.Prelude.{ℕ, suc, ◌+◌, ◌^◌, ◌≤◌, ◌<◌, ◌≡◌, false, arith}
use mi_ster_cast.VideoCapture.Wake.{
  Waiter, Signals, notified, WakeStep, arrive, announce, stop, notify, sample, take, show, empty,
  return, sleep, expire, Woken, rest, next,
}

-- What the worker's place says of the counts: of those queued, unannounced, raised and notifying.
abbrev Place : ℕ → ℕ → ℕ → ℕ → Waiter → Type 0
Place q u r n Waiter.idle = Unit {0}
Place q u r n (Waiter.draining seen held) = seen ≤ r
Place q u r n (Waiter.testing seen) = (seen ≤ r) × (q + seen ≤ u + r)
Place q u r n (Waiter.asleep seen) = (seen ≤ r) × (q + seen ≤ u + r) × (r ≤ seen + n)

abbrev InPlace : Signals → Type 0
InPlace s = Place s.queued s.unannounced s.raised s.notifying s.waiter

Place-at :
    (s : Signals) (w : Waiter)
    → s.waiter ≡ w
    → InPlace s
    → Place s.queued s.unannounced s.raised s.notifying w
Place-at s w e p = rw (← e) p

arrive-Place : (q u r n : ℕ) (w : Waiter) → Place q u r n w → Place (q + 1) (u + 1) r n w
arrive-Place q u r n Waiter.idle p = tt
arrive-Place q u r n (Waiter.draining seen held) p = p
arrive-Place q u r n (Waiter.testing seen) p = omega arith
arrive-Place q u r n (Waiter.asleep seen) p = omega arith

announce-Place :
    (q u v r n : ℕ) (w : Waiter) → v ≡ suc u → Place q v r n w → Place q u (r + 1) (n + 1) w
announce-Place q u v r n Waiter.idle e p = tt
announce-Place q u v r n (Waiter.draining seen held) e p = omega arith
announce-Place q u v r n (Waiter.testing seen) e p = omega arith
announce-Place q u v r n (Waiter.asleep seen) e p = omega arith

stop-Place : (q u r n : ℕ) (w : Waiter) → Place q u r n w → Place q u (r + 1) (n + 1) w
stop-Place q u r n Waiter.idle p = tt
stop-Place q u r n (Waiter.draining seen held) p = omega arith
stop-Place q u r n (Waiter.testing seen) p = omega arith
stop-Place q u r n (Waiter.asleep seen) p = omega arith

notify-Place : (q u r n m : ℕ) (w : Waiter) → Place q u r m w → Place q u r n (notified w)
unfolding notified
notify-Place q u r n m Waiter.idle p = tt
notify-Place q u r n m (Waiter.draining seen held) p = p
notify-Place q u r n m (Waiter.testing seen) p = p
notify-Place q u r n m (Waiter.asleep seen) p = (p.0, p.1)

WakeStep-raised : {s t : Signals} → WakeStep s t → s.raised ≤ t.raised
WakeStep-raised (arrive s) = omega arith
WakeStep-raised (announce s n e) = omega arith
WakeStep-raised (stop s) = omega arith
WakeStep-raised (notify s n e) = omega arith
WakeStep-raised (sample s e) = omega arith
WakeStep-raised (take s seen n held e f) = omega arith
WakeStep-raised (show s seen e f) = omega arith
WakeStep-raised (empty s seen e f) = omega arith
WakeStep-raised (return s seen e f) = omega arith
WakeStep-raised (sleep s seen e f) = omega arith
WakeStep-raised (expire s seen e) = omega arith

WakeStep-InPlace : {s t : Signals} → WakeStep s t → t.raised < 2 ^ 64 → InPlace s → InPlace t
WakeStep-InPlace (arrive s) h p =
    arrive-Place s.queued s.unannounced s.raised s.notifying s.waiter p
WakeStep-InPlace (announce s n e) h p =
    announce-Place s.queued n s.unannounced s.raised s.notifying s.waiter e p
WakeStep-InPlace (stop s) h p = stop-Place s.queued s.unannounced s.raised s.notifying s.waiter p
WakeStep-InPlace (notify s n e) h p =
    notify-Place s.queued s.unannounced s.raised n s.notifying s.waiter p
WakeStep-InPlace (sample s e) h p = omega arith
WakeStep-InPlace (take s seen n held e f) h p = Place-at s (Waiter.draining seen held) e p
WakeStep-InPlace (show s seen e f) h p = tt
WakeStep-InPlace (empty s seen e f) h p =
    let seen_le : seen ≤ s.raised = Place-at s (Waiter.draining seen false) e p in omega arith
WakeStep-InPlace (return s seen e f) h p = tt
WakeStep-InPlace (sleep s seen e f) h p =
    let placed : (seen ≤ s.raised) × (s.queued + seen ≤ s.unannounced + s.raised) =
      Place-at s (Waiter.testing seen) e p in
    omega arith
WakeStep-InPlace (expire s seen e) h p = tt

Woken-InPlace : {s : Signals} → Woken s → s.raised < 2 ^ 64 → InPlace s
Woken-InPlace rest h = tt
Woken-InPlace (next r st) h =
    let before = Woken-InPlace r (omega (arith, WakeStep-raised st)) in WakeStep-InPlace st h before

-- Whatever the order in which frames arrive, are announced and notified, and the worker samples the
-- signal, drains the pool and tests the predicate, as long as there were fewer than 2 ^ 64 signals:
-- the number of frames in the pool while the worker sleeps is at most that of the frames whose
-- `FrameArrived` has not run yet and of the threads about to call `notify_all`. So once these have
-- run, a sleeping worker sleeps on an empty pool: no wake-up is lost.
pub no_lost_wakeup :
    (s : Signals) (seen : ℕ)
    → Woken s
    → s.raised < 2 ^ 64
    → s.waiter ≡ Waiter.asleep seen
    → s.queued ≤ s.unannounced + s.notifying
no_lost_wakeup s seen r h e =
    let placed : (seen ≤ s.raised)
        × (s.queued + seen ≤ s.unannounced + s.raised)
        × (s.raised ≤ seen + s.notifying) =
      Place-at s (Waiter.asleep seen) e (Woken-InPlace r h) in
    omega arith
