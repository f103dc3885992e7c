-- ===== src/Otel/Traces/Sent.antt =====
-- What is sent for a span of a guest, field by field (crates/wasi-otel/src/host/tracing_impl.rs),
-- written without the conversions of the code.
use yetti.Base.{
  ℕ, ◌+◌, ◌*◌, ◌%◌, ◌^◌, ◌≡◌, refl, true, false, Bool, Option, none, some, List, [], ◌∷◌, ◌++◌, map,
  Text, Bytes,
}
use yetti.Foreign.Opentelemetry
use yetti.Otel.Values.{Floats, Datetime, to_u64, KeyValue, any_value, key_value}
use yetti.Otel.Traces.{
  SpanKind, client, server, producer, consumer, internal, as_i32, Status, unset, ok, error, flags,
  print_state, Event, Link, SpanData, hex, event, link, status_of, span_of, set_parent,
}

abbrev pub nanoseconds : Datetime → ℕ
nanoseconds t = (t.seconds * 1000000000 + t.nanoseconds) % 2 ^ 64

-- `k=v` for each entry, with commas between them
abbrev pub header : List (Text × Text) → Text
header [] = []
header ((k, v) ∷ []) = k ++ b'=' ∷ v
header ((k, v) ∷ e ∷ es) = (k ++ b'=' ∷ v) ++ b',' ∷ header (e ∷ es)

-- the place of a kind in the interface's enumeration
abbrev pub place : SpanKind → ℕ
place client = 0
place server = 1
place producer = 2
place consumer = 3
place internal = 4

abbrev pub sampled_bit : Bool → ℕ
sampled_bit true = 1
sampled_bit false = 0

print_state-header : (es : List (Text × Text)) → print_state es ≡ header es
unfolding print_state yetti.Base.Join.join
print_state-header [] = refl
print_state-header ((k, v) ∷ []) = refl
print_state-header ((k, v) ∷ e ∷ es) = rw (print_state-header (e ∷ es)) refl

place-as_i32 : (k : SpanKind) → as_i32 k ≡ place k
unfolding as_i32
place-as_i32 client = refl
place-as_i32 server = refl
place-as_i32 producer = refl
place-as_i32 consumer = refl
place-as_i32 internal = refl

sampled_bit-flags : (b : Bool) → flags b ≡ sampled_bit b
sampled_bit-flags true = refl
sampled_bit-flags false = refl

map_as {ℓ κ} :
    {A : Type ℓ} {B : Type κ} {f g : A → B}
    → ((x : A) → f x ≡ g x)
    → (xs : List A) → map f xs ≡ map g xs
map_as same xs = λ i. map (λ x. same x i) xs

module _ (F : Floats) (decode : Text → Option Bytes) where
  -- the bytes of an id, none of them if it is not hexadecimal
  abbrev pub id_bytes : Option Bytes → Bytes
  id_bytes none = []
  id_bytes (some b) = b

  abbrev pub sent_attributes : List (KeyValue F) → List (Opentelemetry.KeyValue F.F64)
  sent_attributes = map (λ kv. record { key = kv.key; value = some (any_value F kv.value) })

  abbrev pub sent_event : Event F decode → Opentelemetry.Event F.F64
  sent_event e = record {
    time_unix_nano = nanoseconds e.time;
    name = e.name;
    attributes = sent_attributes e.attributes;
    dropped_attributes_count = 0;
  }

  abbrev pub sent_link : Link F decode → Opentelemetry.Link F.F64
  sent_link l = record {
    trace_id = id_bytes (decode l.span_context.trace_id);
    span_id = id_bytes (decode l.span_context.span_id);
    trace_state = header l.span_context.trace_state;
    attributes = sent_attributes l.attributes;
    dropped_attributes_count = 0;
    flags = sampled_bit l.span_context.sampled;
  }

  abbrev pub sent_status : Status → Opentelemetry.Status F.F64
  sent_status unset = record { message = []; code = 0 }
  sent_status ok = record { message = []; code = 1 }
  sent_status (error description) = record { message = description; code = 2 }

  -- A span as a child of a span of the host.
  abbrev pub child : Text → Text → SpanData F decode → Opentelemetry.Span F.F64
  child trace_id span_id s = record {
    trace_id = id_bytes (decode trace_id);
    span_id = id_bytes (decode s.span_context.span_id);
    trace_state = header s.span_context.trace_state;
    parent_span_id = id_bytes (decode span_id);
    flags = sampled_bit s.span_context.sampled;
    name = s.name;
    kind = place s.span_kind;
    start_time_unix_nano = nanoseconds s.start_time;
    end_time_unix_nano = nanoseconds s.end_time;
    attributes = sent_attributes s.attributes;
    dropped_attributes_count = s.dropped_attributes;
    events = map sent_event s.events;
    dropped_events_count = s.dropped_events;
    links = map sent_link s.links;
    dropped_links_count = s.dropped_links;
    status = some (sent_status s.status);
  }

  elim-id_bytes : (o : Option Bytes) → elim o [ none ↦ [] | some b ↦ b ] ≡ id_bytes o
  elim-id_bytes none = refl
  elim-id_bytes (some b) = refl

  hex-id_bytes : (t : Text) → hex F decode t ≡ id_bytes (decode t)
  hex-id_bytes t = elim-id_bytes (decode t)

  event-sent_event : (e : Event F decode) → event F decode e ≡ sent_event e
  unfolding event to_u64 key_value
  event-sent_event e = refl

  link-sent_link : (l : Link F decode) → link F decode l ≡ sent_link l
  unfolding link key_value
  link-sent_link l =
      rw
        (
          ← hex-id_bytes l.span_context.trace_id,
          ← hex-id_bytes l.span_context.span_id,
          print_state-header l.span_context.trace_state,
          sampled_bit-flags l.span_context.sampled,
        )
        refl

  status_of-sent_status : (s : Status) → status_of F decode s ≡ sent_status s
  unfolding status_of
  status_of-sent_status unset = refl
  status_of-sent_status ok = refl
  status_of-sent_status (error description) = refl

  child-set_parent :
      (trace_id span_id : Text) (s : SpanData F decode)
      → span_of F decode (set_parent F decode trace_id span_id s) ≡ child trace_id span_id s
  unfolding span_of set_parent to_u64 key_value
  child-set_parent trace_id span_id s =
      rw
        (
          ← hex-id_bytes trace_id,
          ← hex-id_bytes span_id,
          ← hex-id_bytes s.span_context.span_id,
          print_state-header s.span_context.trace_state,
          sampled_bit-flags s.span_context.sampled,
          place-as_i32 s.span_kind,
          status_of-sent_status s.status,
          map_as event-sent_event s.events,
          map_as link-sent_link s.links,
        )
        refl

  pub span_of-set_parent :
      (trace_id span_id : Text) (spans : List (SpanData F decode))
      → map (span_of F decode) (map (set_parent F decode trace_id span_id) spans)
        ≡ map (child trace_id span_id) spans
  span_of-set_parent trace_id span_id [] = refl
  span_of-set_parent trace_id span_id (s ∷ spans) =
      rw (child-set_parent trace_id span_id s, span_of-set_parent trace_id span_id spans) refl
