-- ===== src/Tests/Telemetry.antt =====
-- The theorems on the export of telemetry, at a guest with two scopes.
use mathlib.Core.List.{Perm}
use yetti.Base.{
  ℕ, suc, ◌/◌, ◌%◌, ◌≡◌, refl, ◌≢◌, Bool, true, false, Option, none, some, List, [], ◌∷◌, map, Text,
  Bytes, text_eq, nat_eq, arith,
}
use yetti.Base.Lists.{bytes, All}
use yetti.Base.Exec.{ok}
use yetti.Foreign.Anyhow.{chained}
use yetti.Foreign.Opentelemetry
use yetti.Otel.Values.{
  Floats, Datetime, to_u64, Value, InstrumentationScope, string_array, any_value, eq_scope,
  hash_scope, Write, instrumentation_scope,
}
use yetti.Otel.Values.Laws.{
  to_u64_bounds, decode_value, decode_value-any_value, with_float, eq_scope-hash_scope,
}
use yetti.Otel.Metrics.{Context, from_anyhow}
use yetti.Otel.Traces.{
  client, unset, SpanData, HostResource, span_of, scope_map, resource_spans, export,
}
use yetti.Otel.Traces.Groups.{exported, sent_scopes, parts, AreApart, IsGroup, resource_spans-perm}
use yetti.Otel.Traces.Sent.{child}
use yetti.Otel.Traces.Laws.{export_lem}

-- Two zeros, with the bits 0 and 1.
abbrev floats : Floats
floats = record {
  F64 = Bool;
  eq = λ x y. true;
  to_bits = λ x. elim x [ true ↦ 1 | false ↦ 0 ];
  as_i64 = λ x. 0;
  of_u64 = λ n. true;
  of_i64 = λ n. true;
}

abbrev decode : Text → Option Bytes
decode t = some t

to_u64_bounds_example :
    (to_u64 (record { seconds = 3; nanoseconds = 7 }) / 1000000000 ≡ 3)
    × (to_u64 (record { seconds = 3; nanoseconds = 7 }) % 1000000000 ≡ 7)
to_u64_bounds_example =
    to_u64_bounds (record { seconds = 3; nanoseconds = 7 }) (omega arith) (omega arith)

abbrev names : Value floats
names = string_array (bytes "a" ∷ bytes "b" ∷ [])

decode_value-any_value_example : decode_value floats (any_value floats names) ≡ some names
decode_value-any_value_example = decode_value-any_value floats names (λ e. cc)

eq_scope-hash_scope_example :
    (eq_scope floats (with_float floats (bytes "x") true) (with_float floats (bytes "x") false)
      ≡ true)
    × (hash_scope floats (with_float floats (bytes "x") true)
        ≢ hash_scope floats (with_float floats (bytes "x") false))
eq_scope-hash_scope_example =
    eq_scope-hash_scope floats (bytes "x") true false refl (λ e. omega arith)

abbrev scope : Text → InstrumentationScope floats
scope name = record { name = name; version = none; schema_url = none; attributes = [] }

abbrev instant : Datetime
instant = record { seconds = 1; nanoseconds = 2 }

abbrev span : Text → SpanData floats decode
span name = record {
  span_context = record {
    trace_id = bytes "t";
    span_id = name;
    sampled = true;
    is_remote = false;
    trace_state = [];
  };
  parent_span_id = bytes "p";
  span_kind = client;
  name = name;
  start_time = instant;
  end_time = instant;
  attributes = [];
  events = [];
  links = [];
  status = unset;
  instrumentation_scope = scope name;
  dropped_attributes = 0;
  dropped_events = 0;
  dropped_links = 0;
}

-- A lookup that comes upon every entry.
abbrev meets : List (Write floats) → List (Write floats) → Bool
meets ws vs = true

abbrev spans : List (SpanData floats decode)
spans = span (bytes "a") ∷ span (bytes "b") ∷ span (bytes "a") ∷ []

abbrev resource : HostResource floats decode
resource = record { attributes = []; schema_url = none }

resource_spans-perm_example :
    let groups = scope_map floats decode meets [] spans in
    let request = resource_spans floats decode meets spans resource in
    Perm (exported floats decode meets request) (map (span_of floats decode) spans)
    × (sent_scopes floats decode meets (parts floats decode meets request)
        ≡ map (λ g. some (instrumentation_scope floats g.0)) groups)
    × AreApart floats decode meets groups
    × All (IsGroup floats decode meets) groups
resource_spans-perm_example = resource_spans-perm floats decode meets (λ ws. refl) spans resource

-- They are two groups.
grouped : map (λ g. g.0.name) (scope_map floats decode meets [] spans) ≡ bytes "a" ∷ bytes "b" ∷ []
unfolding scope_map yetti.Otel.Traces.push yetti.Otel.Traces.same eq_scope text_eq
grouped = refl

-- A context that counts its exports.
abbrev counting : Context floats decode chained
counting = record {
  State = ℕ;
  export_metrics = λ request n. (ok tt, suc n);
  export_traces = λ request n. (ok tt, suc n);
}

export_lem_example :
    (request : List (Opentelemetry.ResourceSpans Bool)) × (export floats decode meets counting
        (some resource)
        (bytes "h")
        (bytes "s")
        spans
        3
      ≡ from_anyhow floats decode counting (counting.export_traces request) 3)
    × Perm
        (exported floats decode meets request)
        (map (child floats decode (bytes "h") (bytes "s")) spans)
export_lem_example =
    export_lem floats decode meets counting resource (bytes "h") (bytes "s") spans 3
