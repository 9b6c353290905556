-- ===== src/Session/Runs.antt =====
-- What holds after any sequence of calls.
use mi_ster_cast.Prelude.{◌≡◌, Bool, true, false, Option, none, some, List, [], ◌∷◌}
use mathlib.Core.Path.{subst}
use mi_ster_cast.Prelude.Fault.{◌>>=◌}
use mi_ster_cast.Session.{StreamWorker, App, Env, Call}
use mi_ster_cast.Session.Globals.{loaded}
use mi_ster_cast.Session.Calls.{step, run}
use mi_ster_cast.Session.Invariant.{IsOptions, IsValid, IsTyped, Keeps, loaded-IsValid}
use mi_ster_cast.Session.Preserve.{step-Keeps}

abbrev pub AllTyped : List (Env × Call) → Type 0
AllTyped [] = Unit
AllTyped ((env, c) ∷ calls) = IsTyped c × AllTyped calls

abbrev Held : Option App → Type 0
Held none = Unit
Held (some s) = IsValid s

Held-bind :
    (o : Option (Bool × App)) (k : Bool × App → Option App)
    → Keeps o
    → ((r : Bool × App) → IsValid r.1 → Held (k r))
    → Held (o >>= k)
Held-bind none k h f = tt
Held-bind (some r) k h f = f r h

run-Held : (calls : List (Env × Call)) (s : App) → AllTyped calls → IsValid s → Held (run calls s)
unfolding run
run-Held [] s typed v = v
run-Held ((env, c) ∷ calls) s typed v =
    Held-bind (step env c s) (λ r. run calls r.1) (step-Keeps env c s typed.0 v)
      (λ r w. run-Held calls r.1 typed.1 w)

-- After any sequence of calls and worker rounds from the loading of the library that does not end the
-- process, the invariant holds; so a stream that is running then is the newest session, has options
-- in range, and runs beside a capture worker that was not told to stop.
pub run-IsValid :
    (calls : List (Env × Call)) {t : App}
    → AllTyped calls
    → run calls loaded ≡ some t
    → IsValid t
      × ((w : StreamWorker)
          → t.stream_worker ≡ some w
          → (w.session ≡ t.session)
            × IsOptions w.options
            × (t.capture_worker ≡ true)
            × (t.stop_capture ≡ false))
run-IsValid calls {t} typed e = (
  v,
  λ w live. (
    v.stream_newest w live,
    v.stream_options w live,
    v.capturing (v.stream_live w live),
    v.capture_runs (v.capturing (v.stream_live w live)),
  ),
)
  where
    v : IsValid t
    v = subst Held e (run-Held calls loaded typed loaded-IsValid)
