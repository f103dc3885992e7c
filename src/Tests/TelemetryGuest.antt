-- ===== src/Tests/TelemetryGuest.antt =====
-- The theorems on the telemetry of a guest, at a clock of two readings and a tracer with one state.
use yetti.Base.{
  ℕ, ◌*◌, ◌/◌, ◌%◌, ◌≡◌, refl, ◌≢◌, false, Option, none, some, List, [], ◌∷◌, ◌++◌, map, Text,
  Bytes, nat_eq, ◌==◌,
}
use yetti.Base.Lists.{bytes}
use yetti.Base.Str.{split}
use yetti.Base.Join.{join}
use yetti.Base.Exec.{ok}
use yetti.Foreign.Opentelemetry
use yetti.Foreign.OtelSdk
use yetti.Foreign.OtelSdk.{TraceStates}
use yetti.Otel.Values.{Floats}
use yetti.Otel.Traces.{span_of}
use yetti.Otel.Guest.Metrics.{ToPrimitive, unsigned, signed}
use yetti.Otel.Guest.Metrics.Laws.{values, measured, sent, values-truncated, values-integers}
use yetti.Otel.Guest.Tracing.{span_data, shutdown_with_timeout}
use yetti.Otel.Guest.Tracing.Laws.{
  kind_code, elapsed, assignments, span_of-span_data, Call, ended, shut_down, run, batch, sampled,
  shutdown_with_timeout-run,
}

-- Numbers of halves.
abbrev halves : Floats
halves = record {
  F64 = ℕ;
  eq = λ x y. x == y;
  to_bits = λ x. x;
  as_i64 = λ x. x / 2;
  of_u64 = λ n. n * 2;
  of_i64 = λ n. n * 2;
}

abbrev truncating : ToPrimitive halves ℕ
truncating = record { to_u64 = λ x. some (x / 2); to_i64 = λ x. some (x / 2); to_f64 = λ x. some x }

abbrev decode : Text → Option Bytes
decode t = some t

abbrev lossy : Bytes → Text
lossy b = b

abbrev at : OtelSdk.SystemTime
at = record { since_epoch = some (5, 7) }

abbrev point : ℕ → OtelSdk.NumberDataPoint ℕ ℕ
point x = record { attributes = []; value = x; exemplars = [] }

abbrev measurements : OtelSdk.MetricData ℕ ℕ
measurements =
    OtelSdk.gauge (record { data_points = point 7 ∷ point 6 ∷ []; start_time = none; time = at })

values-truncated_example :
    values halves (sent halves decode lossy truncating measurements)
    ≡ map (λ x. some (Opentelemetry.as_int (x / 2))) (measured halves measurements)
values-truncated_example =
    values-truncated halves decode lossy truncating (λ x. x / 2) measurements (refl, (refl, tt))

-- Three and a half and three arrive as one number.
halves_lost :
    values halves (sent halves decode lossy truncating measurements)
    ≡ some (Opentelemetry.as_int 3) ∷ some (Opentelemetry.as_int 3) ∷ []
unfolding yetti.Otel.Metrics.metric_data yetti.Otel.Guest.Metrics.metric_data
halves_lost = refl

values-integers_example :
    (values halves (sent halves decode lossy (unsigned halves) measurements)
      ≡ map (λ n. some (Opentelemetry.as_int n)) (measured halves measurements))
    × (values halves (sent halves decode lossy (signed halves) measurements)
        ≡ map (λ n. some (Opentelemetry.as_int n)) (measured halves measurements))
values-integers_example = values-integers halves decode lossy measurements

-- A trace state is its header.
abbrev states : TraceStates ℕ
states = record {
  TraceState = Text;
  header = λ t. t;
  default = [];
  is_sampled = λ byte. byte % 2 == 1;
  sampled_flags = 1;
  default_flags = 0;
  from_key_value = λ es. none;
  lower_hex = λ b. b;
  to_string = λ b. b;
  trace_id_from_hex = λ t. some t;
  span_id_from_hex = λ t. some t;
  invalid_trace_id = [];
  invalid_span_id = [];
}

-- A span with these trace flags, whose state has a piece without an equals sign.
abbrev span : Text → ℕ → OtelSdk.SpanData ℕ states
span name trace_flags = record {
  span_context = record {
    trace_id = bytes "t";
    span_id = bytes "s";
    trace_flags = trace_flags;
    is_remote = false;
    trace_state = bytes "a=1,x,b=2";
  };
  parent_span_id = bytes "p";
  span_kind = OtelSdk.server;
  name = name;
  start_time = at;
  end_time = at;
  attributes = [];
  dropped_attributes_count = 0;
  events = [];
  dropped_events_count = 0;
  links = [];
  dropped_links_count = 0;
  status = OtelSdk.ok;
  instrumentation_scope = record { name = []; version = none; schema_url = none; attributes = [] };
}

span_of-span_data_example :
    let sd = span (bytes "x") 3 in
    let arrived = span_of halves decode (span_data halves states decode sd) in
    (arrived.name ≡ sd.name)
    × (arrived.trace_state
        ≡ join b',' (assignments (split b',' (states.header sd.span_context.trace_state))))
    × (arrived.flags ≡ sd.span_context.trace_flags % 2)
    × (arrived.start_time_unix_nano ≡ elapsed sd.start_time.since_epoch)
    × (arrived.kind ≢ kind_code sd.span_kind)
span_of-span_data_example =
    span_of-span_data halves states decode (λ byte. refl) (span (bytes "x") 3)

-- The piece without an equals sign is lost.
assigned : join b',' (assignments (split b',' (bytes "a=1,x,b=2"))) ≡ bytes "a=1,b=2"
unfolding join split nat_eq
assigned = refl

abbrev calls : List (Call halves states decode)
calls = ended (span (bytes "y") 0) ∷ shut_down ∷ ended (span (bytes "x") 1) ∷ []

shutdown_with_timeout-run_example :
    let p = run halves states decode [] calls in
    let after = run halves states decode [] (shut_down ∷ calls) in
    (shutdown_with_timeout halves states decode [] p ≡ (ok tt, after))
    × (after.spawned
        ≡ p.spawned ++ batch halves states decode [] (sampled halves states decode [] calls))
    × (after.spans ≡ sampled halves states decode [] calls)
shutdown_with_timeout-run_example = shutdown_with_timeout-run halves states decode [] calls
