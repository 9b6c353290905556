-- ===== src/Buffers/Calm.antt =====
-- The triple buffer is safe as long as no frame is published between the reader's load of the
-- published index and its lease.
use mi_ster_cast.Prelude.{ℕ, ◌<◌, ◌≡◌, ◌≢◌, Option, none, some, arith}
use mi_ster_cast.Buffers.{
  buffer_count, Reader, Writer, State, Step, load_index, lease, release, pick, check, abandon,
  publish, start, Conflict, successor, choose,
}

-- A publication finds the reader outside the gap between its load and its lease.
abbrev pub IsCalm : {s t : State} → Step s t → Type 0
IsCalm (load_index s h) = Unit
IsCalm (publish s n h) = (i : ℕ) → s.reader ≢ Reader.loaded i
IsCalm _ = Unit

-- A run in which every publication is calm.
pub data CalmReach (s : State) : State → Type 0 where
  here : CalmReach s s
  next : {t u : State} → CalmReach s t → (st : Step t u) → IsCalm st → CalmReach s u

pub record Inv (s : State) : Type 0 where
  pub published_in : s.published < buffer_count
  pub loaded_current : (i : ℕ) → s.reader ≡ Reader.loaded i → i ≡ s.published
  pub lease_held : (i : ℕ) → s.reader ≡ Reader.reading i → s.active ≡ some i
  pub lease_used : (i : ℕ) → s.active ≡ some i → s.reader ≡ Reader.reading i
  pub lease_in : (i : ℕ) → s.active ≡ some i → i < buffer_count
  pub picked_next : (n : ℕ) → s.writer ≡ Writer.picked n → n ≡ successor s.published
  pub writing_in : (n : ℕ) → s.writer ≡ Writer.writing n → n < buffer_count
  pub writing_unpublished : (n : ℕ) → s.writer ≡ Writer.writing n → n ≢ s.published
  pub writing_unleased : (n : ℕ) → s.writer ≡ Writer.writing n → s.active ≢ some n

start-Inv : (n : ℕ) → n < buffer_count → Inv (start n)
start-Inv n h = record {
  published_in = h;
  loaded_current = λ i e. cc;
  lease_held = λ i e. cc;
  lease_used = λ i e. cc;
  lease_in = λ i e. cc;
  picked_next = λ m e. cc;
  writing_in = λ m e. cc;
  writing_unpublished = λ m e. cc;
  writing_unleased = λ m e. cc;
}

-- The chosen buffer is neither the published nor the leased one.
pub choose_lem :
    (active : Option ℕ) (published : ℕ)
    → published < buffer_count
    → let n = choose active (successor published) in
      (n < buffer_count) × (n ≢ published) × (active ≢ some n)
unfolding choose
choose_lem none published h = ground arith
choose_lem (some i) published h = ground arith

Step-Inv : {s t : State} (st : Step s t) → IsCalm st → Inv s → Inv t
Step-Inv (load_index s h) c v = grind arith
Step-Inv (lease s i h) c v = grind arith
Step-Inv (release s i h) c v = grind arith
Step-Inv (pick s h) c v = grind arith
Step-Inv (check s n h) c v =
    let e : n ≡ successor s.published = v.picked_next n h in
    let free = choose_lem s.active s.published v.published_in in rw e (grind arith)
Step-Inv (abandon s n h) c v = grind arith
Step-Inv (publish s n h) c v = grind arith

CalmReach-Inv : {s t : State} → Inv s → CalmReach s t → Inv t
CalmReach-Inv v here = v
CalmReach-Inv v (next r st c) = Step-Inv st c (CalmReach-Inv v r)

-- In every run from the start in which no frame is published between the reader's load of the index
-- and its lease, the capture thread never fills the buffer that the stream thread reads, nor the
-- published one, and the buffer it fills exists.
pub calm-no-Conflict :
    (n : ℕ) {t : State}
    → n < buffer_count
    → CalmReach (start n) t
    → (¬ Conflict t)
      × ((i : ℕ) → t.writer ≡ Writer.writing i → (i < buffer_count) × (i ≢ t.published))
calm-no-Conflict n {t} h r = (
  (λ (i, reads, writes). v.writing_unleased i writes (v.lease_held i reads)),
  λ i e. (v.writing_in i e, v.writing_unpublished i e),
)
  where
    v : Inv t
    v = CalmReach-Inv (start-Inv n h) r
