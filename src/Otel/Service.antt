-- ===== src/Otel/Service.antt =====
-- The service that measures requests: `TracingService` of crates/otel/src/tracing.rs. A duration is
-- what the clock gives; the span of the request is left out, apart from the status that it records.
pub mod Laws
use yetti.Base.{ℕ, Option, List, [], ◌∷◌, ◌++◌, Text}
use yetti.Base.Exec.{Result, ok, err, Exec}

pub record Request (Rest : Type 0) : Type 0 where
  pub method : Text
  pub path : Text
  pub rest : Rest

pub record Response (Rest : Type 0) : Type 0 where
  pub status : ℕ
  pub rest : Rest

-- A record of the histogram `http.server.duration` with its attributes.
pub record Measurement : Type 0 where
  pub duration : ℕ
  pub method : Text
  pub status_code : ℕ
  pub route : Text

-- The status of a response, or that of a server's error.
abbrev pub status_of : {E A : Type 0} → Result E (Response A) → ℕ
status_of (ok response) = response.status
status_of (err e) = 500

module _ {A B E State : Type 0} (inner : Request A → Exec State E (Response B))
    (elapsed : State → State → ℕ) where
  -- the state of the inner service, and what the histogram recorded, the first one first
  pub record World : Type 0 where
    pub inner_state : State
    pub recorded : List Measurement

  -- `Service::call`
  unfoldable pub call : Request A → Exec World E (Response B)
  call req w =
      let (response, after) = inner req w.inner_state in
      (
        response,
        record {
          inner_state = after;
          recorded =
              w.recorded
              ++ record {
                duration = elapsed w.inner_state after;
                method = req.method;
                status_code = status_of response;
                route = req.path;
              }
                ∷ [];
        },
      )

  -- a sequence of calls, with their results
  unfoldable pub run : List (Request A) → World → List (Result E (Response B)) × World
  unfolding call
  run [] w = ([], w)
  run (req ∷ reqs) w =
      let (response, w') = call req w in
      let (responses, w'') = run reqs w' in (response ∷ responses, w'')
