-- ===== src/ReceiverClock.antt =====
-- `ReceiverAudioClock` of AudioTimeline.h. The arithmetic of the doubles is an interface: a type
-- with the operations that the clock uses.
pub mod Due
pub mod Samples
mod Tests
use mi_ster_cast.Prelude.{
  ℕ, ◌+◌, ◌*◌, ◌/◌, ◌%◌, ◌^◌, min, Bool, true, false, not, ◌&&◌, List, [], ◌∷◌, ltb, ◌==◌,
  if◌then◌else◌,
}
use mi_ster_cast.Prelude.Int.{ℤ, pos, ◌+ℤ◌, ◌-ℤ◌, ltb_ℤ}
use mi_ster_cast.Prelude.Words.{u64, sub_u32}

-- The operations of `double`; `of_int` is the conversion of an integer, `llround` that to int64_t.
pub record Doubles (D : Type 0) : Type 0 where
  pub of_int : ℤ → D
  pub add : D → D → D
  pub sub : D → D → D
  pub mul : D → D → D
  pub div : D → D → D
  pub abs : D → D
  pub greater : D → D → Bool
  pub llround : D → ℤ

pub record Clock (D : Type 0) : Type 0 where
  pub rate : ℕ
  pub lead : ℕ
  pub samples_per_field : D
  pub field_100ns : D
  pub base_frame : ℕ
  pub last_frame : ℕ
  pub last_call : ℤ
  pub last_report : ℤ
  pub played : D
  pub offset : D
  pub due : ℤ
  pub stale : Bool
  pub stale_reports : ℕ
  pub reanchors : ℕ

-- `std::max` of int64_t
abbrev pub max_ℤ : ℤ → ℤ → ℤ
max_ℤ a b = if ltb_ℤ a b then b else a

module _ {D : Type 0} (ops : Doubles D) where
  -- `reset`
  unfoldable pub reset_clock : ℕ → ℕ → D → ℕ → ℤ → Clock D
  reset_clock rate buffer_ms field_ms frame now = record {
    rate = rate;
    lead = rate * min (buffer_ms / 2) 40 / 1000;
    samples_per_field = ops.div (ops.mul (ops.of_int (pos rate)) field_ms) (ops.of_int (pos 1000));
    field_100ns = ops.mul field_ms (ops.of_int (pos 10000));
    base_frame = frame;
    last_frame = frame;
    last_call = now;
    last_report = now;
    played = ops.of_int (pos 0);
    offset = ops.of_int (pos 0);
    due = pos (rate * min (buffer_ms / 2) 40 / 1000);
    stale = false;
    stale_reports = 0;
    reanchors = 0;
  }

  -- The samples that the field counter says were played.
  unfoldable pub observe : ℕ → Clock D → D
  observe frame c =
      ops.add (ops.mul (ops.of_int (pos (sub_u32 frame c.base_frame))) c.samples_per_field) c.offset

  -- `due` on a new report: the field counter is followed, unless it jumps by a tenth of a second.
  unfoldable pub on_report : ℕ → ℤ → Clock D → Clock D
  on_report frame now c =
      let jumps =
        ops.greater (ops.abs (ops.sub (observe frame c) c.played))
          (ops.div (ops.of_int (pos c.rate)) (ops.of_int (pos 10))) in
      record c {
        offset = if jumps then ops.add c.offset (ops.sub c.played (observe frame c)) else c.offset;
        played = if jumps then c.played else observe frame c;
        reanchors = if jumps then u64 (c.reanchors + 1) else c.reanchors;
        last_frame = frame;
        last_report = now;
        stale = false;
      }

  -- `due` between reports: the clock runs on, and a report is stale after two fields.
  unfoldable pub between_reports : ℤ → Clock D → Clock D
  between_reports now c =
      let stales =
        not c.stale
        && ops.greater (ops.of_int (now -ℤ c.last_report))
            (ops.mul (ops.of_int (pos 2)) c.field_100ns) in
      record c {
        played = ops.add c.played (
            ops.div
              (ops.mul (ops.of_int (max_ℤ (pos 0) (now -ℤ c.last_call))) (ops.of_int (pos c.rate)))
              (ops.of_int (pos 10000000)));
        stale = if stales then true else c.stale;
        stale_reports = if stales then u64 (c.stale_reports + 1) else c.stale_reports;
      }

  -- The last lines of `due`.
  unfoldable pub settle : ℤ → Clock D → Clock D
  settle now c = record c {
    last_call = now;
    due = max_ℤ c.due (ops.llround c.played +ℤ pos c.lead);
  }

  -- `due`, with the value that it returns
  unfoldable pub due_at : ℕ → ℤ → Clock D → ℤ × Clock D
  due_at frame now c =
      if c.rate == 0
      then (pos 0, c)
      else if ltb c.last_frame frame
      then ((settle now (on_report frame now c)).due, settle now (on_report frame now c))
      else ((settle now (between_reports now c)).due, settle now (between_reports now c))

  -- `reanchor`
  unfoldable pub reanchor : ℕ → ℤ → ℕ → Clock D → Clock D
  reanchor frame now output_frames c = record c {
    base_frame = frame;
    last_frame = frame;
    last_call = now;
    last_report = now;
    played = ops.of_int (pos output_frames);
    offset = ops.of_int (pos 0);
    due = pos (output_frames + c.lead);
    stale = false;
    reanchors = u64 (c.reanchors + 1);
  }
