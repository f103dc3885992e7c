-- ===== src/Otel/Service/Laws.antt =====
-- What the measuring service records (crates/otel/src/tracing.rs).
use mathlib.Core.List.{append-nil, append_assoc}
use yetti.Base.{ℕ, ◌≡◌, List, [], ◌∷◌, ◌++◌}
use yetti.Base.Exec.{Result, Exec}
use yetti.Otel.Service.{Request, Response, Measurement, status_of, World, call, run}

module _ {A B E State : Type 0} (inner : Request A → Exec State E (Response B))
    (elapsed : State → State → ℕ) where
  -- The calls of the inner service alone.
  abbrev pub bare : List (Request A) → State → List (Result E (Response B)) × State
  bare [] s = ([], s)
  bare (req ∷ reqs) s =
      let (response, s') = inner req s in
      let (responses, s'') = bare reqs s' in (response ∷ responses, s'')

  -- What is recorded in a sequence of calls, one measurement for each.
  abbrev pub measurements : List (Request A) → State → List Measurement
  measurements [] s = []
  measurements (req ∷ reqs) s =
      let (response, s') = inner req s in
      record {
        duration = elapsed s s';
        method = req.method;
        status_code = status_of response;
        route = req.path;
      }
      ∷ measurements reqs s'

  -- The measuring service is transparent: for any calls, the results and the state are those of the
  -- inner service alone; it records each call once, in order, with the status 500 for an error.
  run-bare :
      (reqs : List (Request A)) (w : World inner elapsed)
      → run inner elapsed reqs w ≡ (
        (bare reqs w.inner_state).0,
        record {
          inner_state = (bare reqs w.inner_state).1;
          recorded = w.recorded ++ measurements reqs w.inner_state;
        },
      )
  unfolding run call
  run-bare [] w = rw append-nil
  run-bare (req ∷ reqs) w = rw (run-bare reqs (call inner elapsed req w).1, append_assoc)
