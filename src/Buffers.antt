-- ===== src/Buffers.antt =====
-- The triple buffer between the capture thread and the stream thread: `lastVideoCaptureIndex`,
-- `activeReadIndex` and `CaptureReadLease` of VideoCapture.h, the reader in `nogpu_pack_frame` of
-- renderer_nogpu.h. Every load and store of an atomic is a step of its own, so that the two threads
-- interleave as they may.
pub mod Choice
pub mod Calm
pub mod Race
mod Tests
use mi_ster_cast.Prelude.{
  ℕ, ◌+◌, ◌%◌, ◌≡◌, Bool, true, false, Option, none, some, ◌==◌, if◌then◌else◌,
}

abbrev pub buffer_count : ℕ
buffer_count = 3

-- The stream thread in `nogpu_pack_frame`: it has loaded the published index, then holds the lease.
pub data Reader : Type 0 where
  idle : Reader
  loaded : ℕ → Reader
  reading : ℕ → Reader

-- The capture thread in `TickVideoCapture`: it has the successor of the published index, then has
-- looked at the lease and fills a buffer.
pub data Writer : Type 0 where
  idle : Writer
  picked : ℕ → Writer
  writing : ℕ → Writer

-- `active` is `activeReadIndex`, with `none` for -1.
pub record State : Type 0 where
  pub published : ℕ
  pub active : Option ℕ
  pub reader : Reader
  pub writer : Writer

abbrev pub is_leased : Option ℕ → ℕ → Bool
is_leased none n = false
is_leased (some i) n = n == i

-- `nextIndex` before the test of the lease
pub successor : ℕ → ℕ
successor n = (n + 1) % buffer_count

-- `if ((int)nextIndex == activeReadIndex.load()) nextIndex = (nextIndex + 1) % BUFFER_COUNT;`
pub choose : Option ℕ → ℕ → ℕ
unfolding successor
choose active n = if is_leased active n then successor n else n

pub data Step : State → State → Type 0 where
  -- `drawIndex = lastVideoCaptureIndex`
  load_index :
      (s : State)
      → s.reader ≡ Reader.idle
      → Step s (record s { reader = Reader.loaded s.published })
  -- `CaptureReadLease lease(drawIndex)`
  lease :
      (s : State) (i : ℕ)
      → s.reader ≡ Reader.loaded i
      → Step s (record s { reader = Reader.reading i; active = some i })
  -- `~CaptureReadLease`
  release :
      (s : State) (i : ℕ)
      → s.reader ≡ Reader.reading i
      → Step s (record s { reader = Reader.idle; active = none })
  -- `publishedIndex = lastVideoCaptureIndex.load()` and its successor
  pick :
      (s : State)
      → s.writer ≡ Writer.idle
      → Step s (record s { writer = Writer.picked (successor s.published) })
  -- the load of `activeReadIndex`; the resize and the copy follow
  check :
      (s : State) (n : ℕ)
      → s.writer ≡ Writer.picked n
      → Step s (record s { writer = Writer.writing (choose s.active n) })
  -- `Map` failed
  abandon :
      (s : State) (n : ℕ) → s.writer ≡ Writer.writing n → Step s (record s { writer = Writer.idle })
  -- `lastVideoCaptureIndex = nextIndex`
  publish :
      (s : State) (n : ℕ)
      → s.writer ≡ Writer.writing n
      → Step s (record s { writer = Writer.idle; published = n })

-- The start of the two threads: nothing is leased and nobody is at work.
abbrev pub start : ℕ → State
start n = record { published = n; active = none; reader = Reader.idle; writer = Writer.idle }

-- The two threads are in one buffer at the same time.
abbrev pub Conflict : State → Type 0
Conflict s = (i : ℕ) × (s.reader ≡ Reader.reading i) × (s.writer ≡ Writer.writing i)

pub data Reach (s : State) : State → Type 0 where
  here : Reach s s
  next : {t u : State} → Reach s t → Step t u → Reach s u
