-- ===== src/Session/Stream.antt =====
-- `StartStream` and `StopStream`: when a stream starts, with what, and how it ends.
use mi_ster_cast.Prelude.{
  ℕ, ◌+◌, ◌<◌, ◌≤◌, ◌≡◌, refl, Bool, true, false, not, ◌||◌, Option, some, arith, if◌then◌else◌,
}
use mathlib.Core.Path.{subst}
use mi_ster_cast.Prelude.Words.{u64}
use mi_ster_cast.Modeline.{mode_ok, validate_modeline_for, buffer_size}
use mi_ster_cast.Modeline.Classify.{IsWellFormed, blit_bytes, accepted-fits}
use mi_ster_cast.Session.{StreamWorker, App, Target, null, empty, address}
use mi_ster_cast.Session.Globals.{is_ok}
use mi_ster_cast.Session.Calls.{is_some, run_start_stream}
use mi_ster_cast.Session.Invariant.{IsValid, is_ok-eq}

-- The state after a start towards `a`.
abbrev pub streaming : ℕ → App → App
streaming a s = record s {
  target = a;
  stop_stream = false;
  session = u64 (s.session + 1);
  stream_worker = some (record {
    target = a;
    options = s.stream_config;
    source = s.source_config;
    session = u64 (s.session + 1);
  });
}

passed :
    (b c : Bool) (s r : App) (y : Option (Bool × App))
    → (if b then some (false, s) else (if c then some (false, s) else y)) ≡ some (true, r)
    → (c ≡ false) × (y ≡ some (true, r))
passed true c s r y e = cc
passed false true s r y e = cc
passed false false s r y e = (refl, e)

-- What a start that answers true did.
pub started_lem :
    (t : Target) (s : App) {r : App}
    → run_start_stream t s ≡ some (true, r)
    → (a : ℕ) × (streaming a s ≡ r)
      × (validate_modeline_for s.selected s.stream_config.rgb_mode
            s.stream_config.allow_oversize_modes
          ≡ mode_ok)
unfolding run_start_stream
started_lem null s e = cc
started_lem empty s e = cc
started_lem (address a) s {r} e =
    let (good, out) =
      passed (not s.initialized || is_some s.stream_worker)
        (not (
          is_ok (
            validate_modeline_for s.selected s.stream_config.rgb_mode
              s.stream_config.allow_oversize_modes)))
        s r (some (true, streaming a s)) e in
    (a, cc out, is_ok-eq _ (ground (arith, good)))

-- In a valid state a stream that was just started can send every frame of the selected mode: the
-- frame is not empty and fits the client's buffer at the stream's own pixel size.
pub started-fits :
    (t : Target) (s : App) {r : App}
    → IsValid s
    → run_start_stream t s ≡ some (true, r)
    → (w : StreamWorker) × (r.stream_worker ≡ some w)
      × (IsWellFormed r.selected
          × (0 < blit_bytes r.selected w.options.rgb_mode)
          × (blit_bytes r.selected w.options.rgb_mode ≤ buffer_size))
started-fits t s {r} v e =
    let (a, same, accepted) = started_lem t s e in
    subst Fits same (
      record {
        target = a;
        options = s.stream_config;
        source = s.source_config;
        session = u64 (s.session + 1);
      },
      refl,
      accepted-fits s.selected s.stream_config.rgb_mode s.stream_config.allow_oversize_modes
          v.mode_u16 accepted,
    )
  where
    Fits : App → Type 0
    Fits q =
        (w : StreamWorker) × (q.stream_worker ≡ some w)
        × (IsWellFormed q.selected
            × (0 < blit_bytes q.selected w.options.rgb_mode)
            × (blit_bytes q.selected w.options.rgb_mode ≤ buffer_size))
