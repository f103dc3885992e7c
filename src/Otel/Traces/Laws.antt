-- ===== src/Otel/Traces/Laws.antt =====
-- What the exported spans say (crates/wasi-otel/src/host/tracing_impl.rs).
use mathlib.Core.List.{Perm}
use yetti.Base.{
  ℕ, ◌≡◌, refl, ◌≢◌, Bool, false, Option, some, List, [], ◌∷◌, ◌++◌, map, arith, Text, Bytes,
  nat_eq, ◌||◌,
}
use yetti.Otel.Traces.Groups.{exported, exported-perm}
use yetti.Otel.Traces.Sent.{child, span_of-set_parent}
use yetti.Base.Lists.{contains, All}
use yetti.Base.Join.{split-join, split_once-append}
use yetti.Foreign.Anyhow.{Anyhow}
use yetti.Foreign.Opentelemetry
use yetti.Otel.Values.{Floats, Write}
use yetti.Otel.Metrics.{Context, from_anyhow}
use yetti.Otel.Traces.{
  SpanKind, client, server, producer, consumer, internal, as_i32, SpanData, HostResource, entry,
  print_state, entries, parse_state, span_of, set_parent, resource_spans, export,
}

-- The protocol's number for a kind.
abbrev pub kind_code : SpanKind → ℕ
kind_code client = Opentelemetry.kind_client
kind_code server = Opentelemetry.kind_server
kind_code producer = Opentelemetry.kind_producer
kind_code consumer = Opentelemetry.kind_consumer
kind_code internal = Opentelemetry.kind_internal

abbrev IsEntry : Text × Text → Type 0
IsEntry (k, v) = (contains k b'=' ≡ false) × (contains k b',' ≡ false) × (contains v b',' ≡ false)

contains-append : (k v : Text) (c : ℕ) → contains (k ++ v) c ≡ (contains k c || contains v c)
contains-append [] v c = refl
contains-append (x ∷ k) v c = ground (arith, contains-append k v c)

entry_comma : (e : Text × Text) → IsEntry e → contains (entry e) b',' ≡ false
unfolding nat_eq
entry_comma (k, v) (h, h1, h2) = ground (arith, contains-append k (b'=' ∷ v) b',', h1, h2)

entries_comma :
    (es : List (Text × Text)) → All IsEntry es → All (λ t. contains t b',' ≡ false) (map entry es)
entries_comma [] all = tt
entries_comma (e ∷ es) (h, all) = (entry_comma e h, entries_comma es all)

entries-map : (es : List (Text × Text)) → All IsEntry es → entries (map entry es) ≡ es
unfolding entries
entries-map [] all = refl
entries-map ((k, v) ∷ es) (h, all) =
    rw (split_once-append b'=' k v h.0, entries) (rw (entries-map es all))

-- A trace state is read back from its header, if no key has a comma or an equals sign and no value
-- has a comma.
parse_state-print_state :
    (es : List (Text × Text)) → All IsEntry es → parse_state (print_state es) ≡ es
unfolding parse_state print_state
parse_state-print_state [] all = refl
parse_state-print_state (e ∷ es) all =
    rw (split-join b',' (entry e) (map entry es) (entries_comma (e ∷ es) all))
      (entries-map (e ∷ es) all)

as_i32-ne-kind_code : (k : SpanKind) → as_i32 k ≢ kind_code k
unfolding as_i32
as_i32-ne-kind_code client e = omega arith
as_i32-ne-kind_code server e = omega arith
as_i32-ne-kind_code producer e = omega arith
as_i32-ne-kind_code consumer e = omega arith
as_i32-ne-kind_code internal e = omega arith

module _ (F : Floats) (decode : Text → Option Bytes) where
  -- The kind of an exported span is never the one that the guest gave: the number sent is the place
  -- in the interface's enumeration, which stands for another kind in the protocol, or for none.
  kind-span_of : (s : SpanData F decode) → (span_of F decode s).kind ≢ kind_code s.span_kind
  unfolding span_of
  kind-span_of s = as_i32-ne-kind_code s.span_kind

  module _ (meets : List (Write F) → List (Write F) → Bool) {ah : Anyhow}
      (C : Context F decode ah) where
    -- An export with OpenTelemetry initialised is one call of the context. Its request has each span
    -- once, in some order, with the guest's name, attributes, events, links, status and counts; its
    -- times in nanoseconds modulo 2 ^ 64; its trace state as text; its sampled bit as the flags; and
    -- its id as bytes, none if it is not hexadecimal. Its trace is that of the host's span, and so is
    -- its parent, also for a span whose parent was another span of the guest; and its kind is sent as
    -- the place in the interface's enumeration: client 0, server 1, producer 2, consumer 3 and
    -- internal 4.
    pub export_lem :
        (resource : HostResource F decode) (trace_id span_id : Text)
        (spans : List (SpanData F decode)) (s : C.State)
        → (request : List (Opentelemetry.ResourceSpans F.F64)) × (export F decode meets C
              (some resource)
              trace_id
              span_id
              spans
              s
            ≡ from_anyhow F decode C (C.export_traces request) s)
          × Perm (exported F decode meets request) (map (child F decode trace_id span_id) spans)
    unfolding export
    export_lem resource trace_id span_id spans s = (
      resource_spans F decode meets (map (set_parent F decode trace_id span_id) spans) resource,
      refl,
      rw (← span_of-set_parent F decode trace_id span_id spans) (
          exported-perm F decode meets (map (set_parent F decode trace_id span_id) spans) resource),
    )
