-- ===== src/Otel/Traces.antt =====
-- The export of spans by `wasi:otel/tracing`: crates/wasi-otel/src/host/tracing_impl.rs.
pub mod Laws
pub mod Groups
pub mod Sent
use yetti.Base.{
  ℕ, Bool, true, false, Option, none, some, List, [], ◌∷◌, ◌++◌, map, Text, Bytes, if◌then◌else◌,
  ◌&&◌,
}
use yetti.Base.Exec
use yetti.Base.Exec.{Exec}
use yetti.Base.Str.{split}
use yetti.Base.Join.{join, split_once}
use yetti.Foreign.Anyhow.{Anyhow}
use yetti.Foreign.Opentelemetry
use yetti.Otel.Values.{
  Floats, Datetime, to_u64, unwrap_or_default, KeyValue, InstrumentationScope, key_value,
  instrumentation_scope, Write, hash_scope, eq_scope,
}
use yetti.Otel.Metrics.{Error, Context, from_anyhow, decode_or_default}

-- The enumeration `span-kind` of the interface, in its order.
pub data SpanKind : Type 0 where
  client server producer consumer internal : SpanKind

-- `span_kind as i32`: the place in that order
unfoldable pub as_i32 : SpanKind → ℕ
as_i32 client = 0
as_i32 server = 1
as_i32 producer = 2
as_i32 consumer = 3
as_i32 internal = 4

pub data Status : Type 0 where
  unset ok : Status
  error : Text → Status

-- A span context; its flags are whether it is sampled.
pub record SpanContext : Type 0 where
  pub trace_id : Text
  pub span_id : Text
  pub sampled : Bool
  pub is_remote : Bool
  pub trace_state : List (Text × Text)

-- `format!("{k}={v}")`, joined with commas
abbrev pub entry : Text × Text → Text
entry (k, v) = k ++ b'=' ∷ v

unfoldable pub print_state : List (Text × Text) → Text
unfolding join
print_state entries = join b',' (map entry entries)

unfoldable pub entries : List Text → List (Text × Text)
unfolding split_once
entries [] = []
entries (s ∷ ss) = elim (split_once b'=' s) [ none ↦ entries ss | some e ↦ e ∷ entries ss ]

-- the entries of the header of a trace state, in `From<&SpanContext>`
unfoldable pub parse_state : Text → List (Text × Text)
unfolding entries split
parse_state header = entries (split b',' header)

-- `From<TraceFlags> for u32`
abbrev pub flags : Bool → ℕ
flags true = 1
flags false = 0

module _ (F : Floats) (decode : Text → Option Bytes) where
  pub record Event : Type 0 where
    pub name : Text
    pub time : Datetime
    pub attributes : List (KeyValue F)

  pub record Link : Type 0 where
    pub span_context : SpanContext
    pub attributes : List (KeyValue F)

  pub record SpanData : Type 0 where
    pub span_context : SpanContext
    pub parent_span_id : Text
    pub span_kind : SpanKind
    pub name : Text
    pub start_time : Datetime
    pub end_time : Datetime
    pub attributes : List (KeyValue F)
    pub events : List Event
    pub links : List Link
    pub status : Status
    pub instrumentation_scope : InstrumentationScope F
    pub dropped_attributes : ℕ
    pub dropped_events : ℕ
    pub dropped_links : ℕ

  abbrev pub hex : Text → Bytes
  hex = decode_or_default F decode

  unfoldable pub event : Event → Opentelemetry.Event F.F64
  unfolding to_u64 key_value
  event e = record {
    time_unix_nano = to_u64 e.time;
    name = e.name;
    attributes = map (key_value F) e.attributes;
    dropped_attributes_count = 0;
  }

  unfoldable pub link : Link → Opentelemetry.Link F.F64
  unfolding print_state key_value
  link l = record {
    trace_id = hex l.span_context.trace_id;
    span_id = hex l.span_context.span_id;
    trace_state = print_state l.span_context.trace_state;
    attributes = map (key_value F) l.attributes;
    dropped_attributes_count = 0;
    flags = flags l.span_context.sampled;
  }

  unfoldable pub status_of : Status → Opentelemetry.Status F.F64
  status_of unset = record { code = Opentelemetry.status_unset; message = [] }
  status_of ok = record { code = Opentelemetry.status_ok; message = [] }
  status_of (error description) = record {
    code = Opentelemetry.status_error;
    message = description;
  }

  -- `From<SpanData> for Span`
  unfoldable pub span_of : SpanData → Opentelemetry.Span F.F64
  unfolding event link status_of print_state as_i32 to_u64 key_value
  span_of s = record {
    trace_id = hex s.span_context.trace_id;
    span_id = hex s.span_context.span_id;
    trace_state = print_state s.span_context.trace_state;
    parent_span_id = hex s.parent_span_id;
    flags = flags s.span_context.sampled;
    name = s.name;
    kind = as_i32 s.span_kind;
    start_time_unix_nano = to_u64 s.start_time;
    end_time_unix_nano = to_u64 s.end_time;
    attributes = map (key_value F) s.attributes;
    dropped_attributes_count = s.dropped_attributes;
    events = map event s.events;
    dropped_events_count = s.dropped_events;
    links = map link s.links;
    dropped_links_count = s.dropped_links;
    status = some (status_of s.status);
  }

  -- A group of `scope_map`: the key, and the spans in the order of their arrival.
  abbrev pub Group : Type 0
  Group = InstrumentationScope F × List SpanData

  -- The resource of the host: its attributes, converted, and the URL of its schema.
  pub record HostResource : Type 0 where
    pub attributes : List (Opentelemetry.KeyValue F.F64)
    pub schema_url : Option Text

  -- The span becomes a child of the host's current span.
  unfoldable pub set_parent : Text → Text → SpanData → SpanData
  set_parent trace_id span_id sp = record sp {
    span_context = record sp.span_context { trace_id = trace_id; is_remote = true };
    parent_span_id = span_id;
  }

  -- `meets` is the lookup of the hash map: whether a key that feeds the second list to the hasher
  -- comes upon an entry that fed it the first.
  module _ (meets : List (Write F) → List (Write F) → Bool) where
    -- Whether a key of the map is found for another one: it is come upon by its `Hash`, and is `==`.
    unfoldable pub same : InstrumentationScope F → InstrumentationScope F → Bool
    unfolding hash_scope eq_scope
    same key other = meets (hash_scope F key) (hash_scope F other) && eq_scope F key other

    -- `scope_map.entry(instrumentation).or_default().push(span)`
    unfoldable pub push : List Group → SpanData → List Group
    unfolding same
    push [] span = (span.instrumentation_scope, span ∷ []) ∷ []
    push ((scope, spans) ∷ groups) span =
        let rest = push groups span in
        if same scope span.instrumentation_scope
        then (scope, spans ++ span ∷ []) ∷ groups
        else (scope, spans) ∷ rest

    unfoldable pub scope_map : List Group → List SpanData → List Group
    unfolding push
    scope_map groups [] = groups
    scope_map groups (span ∷ spans) = scope_map (push groups span) spans

    -- the scope of the first span; a group has one
    abbrev first_scope : List SpanData → Option (Opentelemetry.InstrumentationScope F.F64)
    first_scope [] = none
    first_scope (span ∷ spans) = some (instrumentation_scope F span.instrumentation_scope)

    unfoldable pub scope_spans : Option Text → Group → Opentelemetry.ScopeSpans F.F64
    unfolding span_of instrumentation_scope
    scope_spans schema_url (scope, spans) = record {
      scope = first_scope spans;
      schema_url = unwrap_or_default schema_url;
      spans = map span_of spans;
    }

    unfoldable pub resource_spans :
        List SpanData → HostResource → List (Opentelemetry.ResourceSpans F.F64)
    unfolding scope_map scope_spans
    resource_spans spans resource =
        record {
          resource =
              some (record { attributes = resource.attributes; dropped_attributes_count = 0 });
          scope_spans = map (scope_spans resource.schema_url) (scope_map [] spans);
          schema_url = unwrap_or_default resource.schema_url;
        }
        ∷ []

    module _ {ah : Anyhow} (C : Context F decode ah) where
      -- The export in the span of the host with these ids; the resource is there once
      -- OpenTelemetry is initialised.
      unfoldable pub export :
          Option HostResource → Text → Text → List SpanData → Exec C.State Error (Unit {0})
      unfolding resource_spans set_parent
      export none trace_id span_id span_data = λ s. (Exec.ok tt, s)
      export (some resource) trace_id span_id span_data =
          from_anyhow F decode C (
            C.export_traces (resource_spans (map (set_parent trace_id span_id) span_data) resource))
