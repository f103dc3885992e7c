-- ===== src/Otel/Guest/Tracing.antt =====
-- The spans of a guest: crates/wasi-otel/src/guest/tracing.rs. The ids and the trace states of the
-- crate `opentelemetry` are parameters.
pub mod Laws
use yetti.Base.{
  ℕ, Bool, true, false, not, Option, none, some, List, [], ◌∷◌, ◌++◌, map, Text, Bytes,
  if◌then◌else◌,
}
use yetti.Base.Lists.{bytes, is_empty}
use yetti.Base.Exec.{Result, ok, err, Exec}
use yetti.Foreign.OtelSdk
use yetti.Foreign.OtelSdk.{TraceStates}
use yetti.Otel.Values.{Floats}
use yetti.Otel.Traces.{
  SpanKind, client, server, producer, consumer, internal, Status, unset, ok, error, SpanContext,
  parse_state, Event, Link, SpanData,
}
use yetti.Otel.Guest.Convert.{datetime, key_value, instrumentation_scope}

-- `From<SpanKind>`
unfoldable pub span_kind : OtelSdk.SpanKind → SpanKind
span_kind OtelSdk.client = client
span_kind OtelSdk.server = server
span_kind OtelSdk.producer = producer
span_kind OtelSdk.consumer = consumer
span_kind OtelSdk.internal = internal

-- `From<Status>`
unfoldable pub status : OtelSdk.Status → Status
status OtelSdk.unset = unset
status (OtelSdk.error description) = error description
status OtelSdk.ok = Status.ok

abbrev unwrap_or : Option Bytes → Bytes → Bytes
unwrap_or none b = b
unwrap_or (some b) c = b

module _ (F : Floats) (S : TraceStates F.F64) where
  -- `From<SpanContext> for wasi::SpanContext`
  unfoldable pub span_context : OtelSdk.SpanContext F.F64 S → SpanContext
  unfolding parse_state
  span_context sc = record {
    trace_id = S.lower_hex sc.trace_id;
    span_id = S.lower_hex sc.span_id;
    sampled = S.is_sampled sc.trace_flags;
    is_remote = sc.is_remote;
    trace_state = parse_state (S.header sc.trace_state);
  }

  abbrev state_or_default : Option S.TraceState → S.TraceState
  state_or_default none = S.default
  state_or_default (some state) = state

  -- `From<wasi::SpanContext> for SpanContext`
  unfoldable pub of_wasi : SpanContext → OtelSdk.SpanContext F.F64 S
  of_wasi value = record {
    trace_id = unwrap_or (S.trace_id_from_hex value.trace_id) S.invalid_trace_id;
    span_id = unwrap_or (S.span_id_from_hex value.span_id) S.invalid_span_id;
    trace_flags = if value.sampled then S.sampled_flags else S.default_flags;
    is_remote = value.is_remote;
    trace_state = state_or_default (S.from_key_value value.trace_state);
  }

  -- `decode` is the host's
  module _ (decode : Text → Option Bytes) where
    unfoldable pub event : OtelSdk.Event F.F64 → Event F decode
    unfolding key_value datetime
    event e = record {
      name = e.name;
      time = datetime e.timestamp;
      attributes = map (key_value F) e.attributes;
    }

    unfoldable pub link : OtelSdk.Link F.F64 S → Link F decode
    unfolding span_context key_value
    link l = record {
      span_context = span_context l.span_context;
      attributes = map (key_value F) l.attributes;
    }

    -- `From<SpanData>`
    unfoldable pub span_data : OtelSdk.SpanData F.F64 S → SpanData F decode
    unfolding span_context span_kind datetime key_value event link status instrumentation_scope
    span_data sd = record {
      span_context = span_context sd.span_context;
      parent_span_id = S.to_string sd.parent_span_id;
      span_kind = span_kind sd.span_kind;
      name = sd.name;
      start_time = datetime sd.start_time;
      end_time = datetime sd.end_time;
      attributes = map (key_value F) sd.attributes;
      events = map event sd.events;
      links = map link sd.links;
      status = status sd.status;
      instrumentation_scope = instrumentation_scope F sd.instrumentation_scope;
      dropped_attributes = sd.dropped_attributes_count;
      dropped_events = sd.dropped_events_count;
      dropped_links = sd.dropped_links_count;
    }

    -- The processor: its resource, its spans behind their lock, which a panic of a holder poisons,
    -- and the exports that were spawned, the first one first.
    pub record Processor : Type 0 where
      pub resource : OtelSdk.Resource F.F64
      pub spans : List (OtelSdk.SpanData F.F64 S)
      pub poisoned : Bool
      pub spawned : List (List (SpanData F decode))

    abbrev pub new : Processor
    new = record {
      resource = record { attributes = []; schema_url = none };
      spans = [];
      poisoned = false;
      spawned = [];
    }

    unfoldable pub on_end : OtelSdk.SpanData F.F64 S → Processor → Processor
    on_end span p =
        if not (S.is_sampled span.span_context.trace_flags)
        then p
        else if p.poisoned
        then p
        else record p { spans = p.spans ++ span ∷ [] }

    -- an error is the text of an internal failure, here `poisoned` for the text of the lock's error
    module _ (poisoned : Text) where
      unfoldable pub shutdown_with_timeout : Exec Processor Text (Unit {0})
      unfolding span_data
      shutdown_with_timeout p =
          if p.poisoned
          then (err poisoned, p)
          else if is_empty p.spans
          then (Result.ok tt, p)
          else (Result.ok tt, record p { spawned = p.spawned ++ map span_data p.spans ∷ [] })

    unfoldable pub set_resource : OtelSdk.Resource F.F64 → Processor → Processor
    set_resource resource p = record p { resource = resource }
