-- ===== src/VideoCapture/Wake.antt =====
-- `windowFrameSignal` of VideoCapture.h: the threads that announce frames of the window and the wait
-- of `TickVideoCapture`. Every access under `windowFrameMutex` is a step, and so is every call of the
-- frame pool, so that the threads interleave as they may.
pub mod Kept
use mi_ster_cast.Prelude.{ℕ, suc, ◌+◌, ◌^◌, ◌%◌, ◌≡◌, ◌≢◌, Bool, true, false}
use mi_ster_cast.Prelude.Words.{u64}

-- The capture worker: before it samples the signal; in the loop that takes frames, with the signals
-- that it has seen and whether it holds a frame; before the test of the wait's predicate; and asleep.
pub data Waiter : Type 0 where
  idle : Waiter
  draining : ℕ → Bool → Waiter
  testing : ℕ → Waiter
  asleep : ℕ → Waiter

-- `queued` frames are in the pool, of which `unannounced` ones have a `FrameArrived` still to come;
-- `raised` signals were given, and `notifying` threads have yet to call `notify_all`. The uint64
-- `windowFrameSignal` holds `raised` modulo 2 ^ 64.
pub record Signals : Type 0 where
  pub queued : ℕ
  pub unannounced : ℕ
  pub raised : ℕ
  pub notifying : ℕ
  pub waiter : Waiter

abbrev pub IsNew : ℕ → ℕ → Type 0
IsNew raised seen = u64 raised ≢ u64 seen

-- `notify_all`: a sleeper tests its predicate again.
pub notified : Waiter → Waiter
notified (Waiter.asleep seen) = Waiter.testing seen
notified w = w

pub data WakeStep : Signals → Signals → Type 0 where
  -- The system puts a frame into the pool.
  arrive :
      (s : Signals)
      → WakeStep s (record s { queued = s.queued + 1; unannounced = s.unannounced + 1 })
  -- `windowFrameSignal++` for a frame that arrived
  announce :
      (s : Signals) (n : ℕ)
      → s.unannounced ≡ suc n
      → WakeStep s
          (record s { unannounced = n; raised = s.raised + 1; notifying = s.notifying + 1 })
  -- `windowFrameSignal++` of `JoinWorker`
  stop :
      (s : Signals) → WakeStep s (record s { raised = s.raised + 1; notifying = s.notifying + 1 })
  -- `windowFrameCv.notify_all()`
  notify :
      (s : Signals) (n : ℕ)
      → s.notifying ≡ suc n
      → WakeStep s (record s { notifying = n; waiter = notified s.waiter })
  -- `signalSeen = windowFrameSignal;`
  sample :
      (s : Signals)
      → s.waiter ≡ Waiter.idle
      → WakeStep s (record s { waiter = Waiter.draining s.raised false })
  -- `TryGetNextFrame` with a frame
  take :
      (s : Signals) (seen n : ℕ) (held : Bool)
      → s.waiter ≡ Waiter.draining seen held
      → s.queued ≡ suc n
      → WakeStep s (record s { queued = n; waiter = Waiter.draining seen true })
  -- `TryGetNextFrame` without one, when a frame is held: the tick goes on to the picture
  show :
      (s : Signals) (seen : ℕ)
      → s.waiter ≡ Waiter.draining seen true
      → s.queued ≡ 0
      → WakeStep s (record s { waiter = Waiter.idle })
  -- and when none is held
  empty :
      (s : Signals) (seen : ℕ)
      → s.waiter ≡ Waiter.draining seen false
      → s.queued ≡ 0
      → WakeStep s (record s { waiter = Waiter.testing seen })
  -- The predicate of `wait_for` holds.
  return :
      (s : Signals) (seen : ℕ)
      → s.waiter ≡ Waiter.testing seen
      → IsNew s.raised seen
      → WakeStep s (record s { waiter = Waiter.idle })
  -- It does not.
  sleep :
      (s : Signals) (seen : ℕ)
      → s.waiter ≡ Waiter.testing seen
      → u64 s.raised ≡ u64 seen
      → WakeStep s (record s { waiter = Waiter.asleep seen })
  -- 32 ms are over.
  expire :
      (s : Signals) (seen : ℕ)
      → s.waiter ≡ Waiter.asleep seen
      → WakeStep s (record s { waiter = Waiter.idle })

-- Nothing has arrived, and the worker is about to sample.
abbrev pub at_rest : Signals
at_rest = record { queued = 0; unannounced = 0; raised = 0; notifying = 0; waiter = Waiter.idle }

pub data Woken : Signals → Type 0 where
  rest : Woken at_rest
  next : {s t : Signals} → Woken s → WakeStep s t → Woken t
