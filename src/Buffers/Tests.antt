-- ===== src/Buffers/Tests.antt =====
-- The theorems on the triple buffer at a concrete start.
use mi_ster_cast.Prelude.{ℕ, ◌<◌, ◌≡◌, ◌≢◌, refl, some, arith}
use mi_ster_cast.Buffers.{
  buffer_count, Reader, Writer, State, load_index, lease, pick, check, start, Conflict, Reach,
  choose,
}
use mi_ster_cast.Buffers.Calm.{CalmReach, here, next, calm-no-Conflict}
use mi_ster_cast.Buffers.Race.{race-reachable}

-- The reader holds buffer 0 and the capture thread fills buffer 1.
abbrev busy : State
busy = record {
  published = 0;
  active = some 0;
  reader = Reader.reading 0;
  writer = Writer.writing 1;
}

busy-CalmReach : CalmReach (start 0) busy
unfolding choose
busy-CalmReach =
    next
      (next
        (next (next here (load_index (start 0) refl) tt)
          (lease (record (start 0) { reader = Reader.loaded 0 }) 0 refl) tt)
        (pick (record (start 0) { reader = Reader.reading 0; active = some 0 }) refl) tt)
      (check (record busy { writer = Writer.picked 1 }) 1 refl) tt

calm-no-Conflict_example :
    (¬ Conflict busy) × ((i : ℕ) → busy.writer ≡ Writer.writing i → (i < buffer_count) × (i ≢ 0))
calm-no-Conflict_example = calm-no-Conflict 0 (omega arith) busy-CalmReach

race-reachable_example : (t : State) × Reach (start 2) t × Conflict t
race-reachable_example = race-reachable 2 (omega arith)
