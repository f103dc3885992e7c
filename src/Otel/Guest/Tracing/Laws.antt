-- ===== src/Otel/Guest/Tracing/Laws.antt =====
-- What a guest's spans are at the collector, and which spans a guest exports
-- (crates/wasi-otel/src/guest/tracing.rs, then src/host/tracing_impl.rs).
use mathlib.Core.List.{append-nil}
use yetti.Base.{
  ℕ, ◌+◌, ◌*◌, ◌%◌, ◌^◌, ◌≡◌, refl, sym, ap, ◌≢◌, Bool, true, false, Option, none, some, List, [],
  ◌∷◌, ◌++◌, map, arith, Text, Bytes, nat_eq, ◌==◌, ◌⊎◌, inl, inr, Bool-cases, if◌then◌else◌,
}
use yetti.Base.Lists.{contains}
use yetti.Base.Str.{split}
use yetti.Base.Join.{join, split_once}
use yetti.Base.Exec.{ok}
use yetti.Foreign.Opentelemetry
use yetti.Foreign.OtelSdk
use yetti.Foreign.OtelSdk.{TraceStates}
use yetti.Otel.Values.{Floats, to_u64}
use yetti.Otel.Traces.{SpanData, as_i32, flags, entry, entries, print_state, parse_state, span_of}
use yetti.Otel.Guest.Convert.{since, datetime}
use yetti.Otel.Guest.Tracing.{span_kind, span_data, Processor, new, on_end, shutdown_with_timeout}

-- The protocol's number for a kind.
abbrev pub kind_code : OtelSdk.SpanKind → ℕ
kind_code OtelSdk.client = Opentelemetry.kind_client
kind_code OtelSdk.server = Opentelemetry.kind_server
kind_code OtelSdk.producer = Opentelemetry.kind_producer
kind_code OtelSdk.consumer = Opentelemetry.kind_consumer
kind_code OtelSdk.internal = Opentelemetry.kind_internal

as_i32-span_kind : (k : OtelSdk.SpanKind) → as_i32 (span_kind k) ≢ kind_code k
unfolding as_i32 span_kind
as_i32-span_kind OtelSdk.client e = omega arith
as_i32-span_kind OtelSdk.server e = omega arith
as_i32-span_kind OtelSdk.producer e = omega arith
as_i32-span_kind OtelSdk.consumer e = omega arith
as_i32-span_kind OtelSdk.internal e = omega arith

-- The nanoseconds since the epoch in 64 bits, and 0 for an instant before it.
abbrev pub elapsed : Option (ℕ × ℕ) → ℕ
elapsed none = 0
elapsed (some (secs, nanos)) = (secs * 1000000000 + nanos) % 2 ^ 64

to_u64-since : (o : Option (ℕ × ℕ)) → to_u64 (since o) ≡ elapsed o
unfolding to_u64
to_u64-since none = refl
to_u64-since (some (secs, nanos)) = refl

to_u64-datetime : (t : OtelSdk.SystemTime) → to_u64 (datetime t) ≡ elapsed t.since_epoch
unfolding datetime
to_u64-datetime t = to_u64-since t.since_epoch

-- The pieces of a header that have an equals sign.
abbrev pub assignments : List Text → List Text
assignments [] = []
assignments (s ∷ ss) = if contains s b'=' then s ∷ assignments ss else assignments ss

entry-split_once :
    (s : Text)
    → ((contains s b'=' ≡ false) × (split_once b'=' s ≡ none))
      ⊎ ((e : Text × Text) × (contains s b'=' ≡ true)
          × (split_once b'=' s ≡ some e)
          × (entry e ≡ s))
unfolding split_once
entry-split_once [] = inl (refl, refl)
entry-split_once (c ∷ s) = elim (Bool-cases (c == b'=')) [
  | inl h ↦ inr (
    ([], s),
    ground (arith, h),
    ground (arith, h),
    (let same : c ≡ b'=' = ground (arith, h) in ap (λ x. x ∷ s) (sym same)),
  )
  | inr h ↦ elim (entry-split_once s) [
    | inl (none_in, e) ↦ inl (ground (arith, h, none_in), ground (arith, h, e))
    | inr ((k, v), there, e, same) ↦
        inr ((c ∷ k, v), ground (arith, h, there), ground (arith, h, e), rw same refl)
  ]
]

entries-assignments : (ss : List Text) → map entry (entries ss) ≡ assignments ss
unfolding entries
entries-assignments [] = refl
entries-assignments (s ∷ ss) = elim (entry-split_once s) [
  | inl (h, e) ↦ rw (h, e, entries) (entries-assignments ss)
  | inr (e, h, found, same) ↦ rw (h, found, entries) (rw (same, entries-assignments ss) refl)
]

sampled-flags :
    (is_sampled : ℕ → Bool) (byte : ℕ)
    → is_sampled byte ≡ (byte % 2 == 1)
    → flags (is_sampled byte) ≡ byte % 2
unfolding nat_eq
sampled-flags is_sampled byte h = elim (Bool-cases (byte % 2 == 1)) [
  | inl e ↦ rw (h, e) (ground (arith, e))
  | inr e ↦ rw (h, e) (ground (arith, e))
]

module _ (F : Floats) (S : TraceStates F.F64) (decode : Text → Option Bytes) where
  -- What of a guest's span arrives, whatever the span is, when `is_sampled` is the lowest bit of the
  -- trace flags: its name; of its trace state the pieces between commas that have an equals sign,
  -- in their order; of its trace flags the lowest bit alone; the instant of its start in
  -- nanoseconds, modulo 2 ^ 64, and 0 for one before the epoch; and its kind never arrives: the
  -- number sent is not the protocol's number for it.
  pub span_of-span_data :
      ((byte : ℕ) → S.is_sampled byte ≡ (byte % 2 == 1))
      → (sd : OtelSdk.SpanData F.F64 S)
      → let span = span_of F decode (span_data F S decode sd) in
        (span.name ≡ sd.name)
        × (span.trace_state
            ≡ join b',' (assignments (split b',' (S.header sd.span_context.trace_state))))
        × (span.flags ≡ sd.span_context.trace_flags % 2)
        × (span.start_time_unix_nano ≡ elapsed sd.start_time.since_epoch)
        × (span.kind ≢ kind_code sd.span_kind)
  unfolding span_of span_data yetti.Otel.Guest.Tracing.span_context print_state parse_state
  span_of-span_data bit sd = (
    refl,
    rw (entries-assignments (split b',' (S.header sd.span_context.trace_state))) refl,
    sampled-flags S.is_sampled sd.span_context.trace_flags (bit sd.span_context.trace_flags),
    to_u64-datetime sd.start_time,
    as_i32-span_kind sd.span_kind,
  )

  -- The calls of a processor by the provider.
  pub data Call : Type 0 where
    ended : OtelSdk.SpanData F.F64 S → Call
    shut_down : Call

  module _ (poisoned : Text) where
    abbrev pub after : Processor F S decode → Call → Processor F S decode
    after p (ended span) = on_end F S decode span p
    after p shut_down = (shutdown_with_timeout F S decode poisoned p).1

    -- The processor after calls, the last one first.
    abbrev pub run : List Call → Processor F S decode
    run [] = new F S decode
    run (call ∷ calls) = after (run calls) call

    -- The sampled spans that ended, in the order of their ends.
    abbrev pub sampled : List Call → List (OtelSdk.SpanData F.F64 S)
    sampled [] = []
    sampled (ended span ∷ calls) =
        if S.is_sampled span.span_context.trace_flags
        then sampled calls ++ span ∷ []
        else sampled calls
    sampled (shut_down ∷ calls) = sampled calls

    abbrev pub batch : List (OtelSdk.SpanData F.F64 S) → List (List (SpanData F decode))
    batch [] = []
    batch (span ∷ spans) = map (span_data F S decode) (span ∷ spans) ∷ []

    run-sampled :
        (calls : List Call) → ((run calls).spans ≡ sampled calls) × ((run calls).poisoned ≡ false)
    unfolding on_end shutdown_with_timeout
    run-sampled [] = (refl, refl)
    run-sampled (ended span ∷ calls) = ground (arith, run-sampled calls)
    run-sampled (shut_down ∷ calls) = ground (arith, run-sampled calls)

    shutdown_with_timeout_lem :
        (p : Processor F S decode) (spans : List (OtelSdk.SpanData F.F64 S))
        → p.poisoned ≡ false
        → p.spans ≡ spans
        → (shutdown_with_timeout F S decode poisoned p ≡ (ok tt, after p shut_down))
          × ((after p shut_down).spawned ≡ p.spawned ++ batch spans)
          × ((after p shut_down).spans ≡ spans)
    unfolding shutdown_with_timeout
    shutdown_with_timeout_lem p [] h e = (rw (h, e), rw (h, e, append-nil p.spawned), rw (h, e))
    shutdown_with_timeout_lem p (span ∷ spans) h e = (rw (h, e), rw (h, e), rw (h, e))

    -- Whatever spans ended and however often the processor was shut down before, a shutdown succeeds
    -- and exports one batch with all sampled spans that ended so far, in the order of their ends, or
    -- nothing if there is none; it forgets no span, so that a later shutdown exports them again.
    pub shutdown_with_timeout-run :
        (calls : List Call)
        → (shutdown_with_timeout F S decode poisoned (run calls) ≡ (ok tt, run (shut_down ∷ calls)))
          × ((run (shut_down ∷ calls)).spawned ≡ (run calls).spawned ++ batch (sampled calls))
          × ((run (shut_down ∷ calls)).spans ≡ sampled calls)
    shutdown_with_timeout-run calls =
        let (e, h) = run-sampled calls in shutdown_with_timeout_lem (run calls) (sampled calls) h e
