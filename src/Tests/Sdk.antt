-- ===== src/Tests/Sdk.antt =====
-- The theorems on the SDK, at errors that are lists of messages with the SDK's error at the bottom.
use yetti.Base.{
  ℕ, suc, ◌≡◌, refl, true, Option, none, some, List, [], ◌∷◌, ◌++◌, Text, text_eq, nat_eq,
}
use yetti.Base.Lists.{bytes}
use yetti.Base.Exec.{ok}
use yetti.Foreign.Anyhow.{Anyhow}
use yetti.Foreign.Http.{plain}
use yetti.Sdk.Error.{
  Error, not_found, status, code, description, display, join_colon, Chains, of_error, of_anyhow,
  http_of_anyhow,
}
use yetti.Sdk.Error.Laws.{in_contexts, of_anyhow-context}
use yetti.Sdk.Request.{Headers, Handler, handle}
use yetti.Sdk.Request.Laws.{
  Calls, start, with_owner, with_provider, with_request, with_headers, build, owner_of, provider_of,
  request_of, headers_of, handle-build,
}

-- An error: its contexts, and an error of the SDK or a message.
pub data Cause : Type 0 where
  sdk : Error → Cause
  message : Text → Cause

abbrev text_of : Cause → Text
text_of (sdk e) = display e
text_of (message t) = t

abbrev sdk_of : Cause → Option Error
sdk_of (sdk e) = some e
sdk_of (message t) = none

abbrev first_of : List Text → Cause → Text
first_of [] cause = text_of cause
first_of (t ∷ ts) cause = t

abbrev ah : Anyhow
ah = record {
  Error = List Text × Cause;
  msg = λ t. ([], message t);
  context = λ t e. (t ∷ e.0, e.1);
  to_string = λ e. first_of e.0 e.1;
  to_string-msg = λ t. refl;
  to_string-context = λ t e. refl;
}

abbrev c : Chains ah
c = record {
  from_error = λ e. ([], sdk e);
  chain = λ e. e.0 ++ text_of e.1 ∷ [];
  root_cause = λ e. text_of e.1;
  downcast_ref = λ e. sdk_of e.1;
  chain-from_error = λ e. refl;
  chain-context = λ t e. refl;
  downcast_ref-from_error = λ e. refl;
  downcast_ref-context = λ t e. refl;
  downcast_ref-msg = λ t. refl;
}

abbrev missing : Error
missing = not_found (bytes "trip") (bytes "no trip 7")

abbrev nested : ah.Error
nested = in_contexts c (bytes "outer" ∷ bytes "inner" ∷ []) (c.from_error missing)

of_anyhow-context_example :
    (status (of_anyhow c nested) ≡ status missing)
    × (code (of_anyhow c nested) ≡ code missing)
    × (description (of_anyhow c nested)
        ≡ join_colon (bytes "outer" ∷ bytes "inner" ∷ display missing ∷ []))
    × ((http_of_anyhow c nested).status ≡ status missing)
    × ((of_error (of_anyhow c nested)).status ≡ status missing)
of_anyhow-context_example = of_anyhow-context c (bytes "outer" ∷ bytes "inner" ∷ []) missing

printed :
    description (of_anyhow c nested) ≡ bytes "outer: inner: code: trip, description: no trip 7"
unfolding description of_anyhow display join_colon
printed = refl

abbrev H : Headers
H = record { HeaderMap = List Text; default = [] }

-- A handler that returns the owner and the headers that it was given.
abbrev echo : Handler plain H ℕ ℕ
echo = record {
  Request = Text;
  Input = Text;
  Output = Text × List Text;
  Error = Text;
  from_input = λ t. ok t;
  handle = λ request ctx n.
      (ok (record { status = 200; headers = []; body = (ctx.owner, ctx.headers) }), suc n);
}

abbrev calls : Calls plain H echo true true true
calls = with_headers (bytes "b" ∷ []) (
    with_owner (bytes "alice")
      (with_request (bytes "r") (with_headers (bytes "a" ∷ []) (with_provider 7 start))))

handle-build_example :
    handle plain H echo (build plain H echo calls) 3
    ≡ echo.handle
        (bytes "r")
        (record { owner = bytes "alice"; provider = 7; headers = bytes "b" ∷ [] })
        3
unfolding owner_of provider_of request_of headers_of
handle-build_example = handle-build plain H echo calls 3
