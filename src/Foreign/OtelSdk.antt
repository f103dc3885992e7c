-- ===== src/Foreign/OtelSdk.antt =====
-- The data of the crates `opentelemetry` and `opentelemetry_sdk` that guests convert, as far as the
-- accessors that are called show it. An `i64` is its 64-bit pattern, an `i8` its 8-bit pattern and an
-- `i32` its 32-bit pattern.
use yetti.Base.{ℕ, Bool, Option, List, Text, Bytes}

-- An instant, by `duration_since(UNIX_EPOCH)`: seconds and nanoseconds, or none before the epoch.
pub record SystemTime : Type 0 where
  pub since_epoch : Option (ℕ × ℕ)

pub data Temporality : Type 0 where
  cumulative delta low_memory : Temporality

pub data SpanKind : Type 0 where
  client server producer consumer internal : SpanKind

pub data Status : Type 0 where
  unset ok : Status
  error : Text → Status

pub record ExponentialBucket : Type 0 where
  pub offset : ℕ
  pub counts : List ℕ

module _ (F64 : Type 0) where
  pub data Array : Type 0 where
    bools : List Bool → Array
    i64s : List ℕ → Array
    f64s : List F64 → Array
    strings : List Text → Array

  pub data Value : Type 0 where
    bool : Bool → Value
    i64 : ℕ → Value
    f64 : F64 → Value
    string : Text → Value
    array : Array → Value

  pub record KeyValue : Type 0 where
    pub key : Text
    pub value : Value

  pub record Resource : Type 0 where
    pub attributes : List KeyValue
    pub schema_url : Option Text

  pub record InstrumentationScope : Type 0 where
    pub name : Text
    pub version : Option Text
    pub schema_url : Option Text
    pub attributes : List KeyValue

  -- the metrics of a type of numbers
  module _ (T : Type 0) where
    pub record Exemplar : Type 0 where
      pub filtered_attributes : List KeyValue
      pub time : SystemTime
      pub value : T
      pub span_id : Bytes
      pub trace_id : Bytes

    -- the data points of gauges and sums
    pub record NumberDataPoint : Type 0 where
      pub attributes : List KeyValue
      pub value : T
      pub exemplars : List Exemplar

    pub record HistogramDataPoint : Type 0 where
      pub attributes : List KeyValue
      pub count : ℕ
      pub bounds : List F64
      pub bucket_counts : List ℕ
      pub min : Option T
      pub max : Option T
      pub sum : T
      pub exemplars : List Exemplar

    pub record ExponentialHistogramDataPoint : Type 0 where
      pub attributes : List KeyValue
      pub count : ℕ
      pub min : Option T
      pub max : Option T
      pub sum : T
      pub scale : ℕ
      pub zero_count : ℕ
      pub positive_bucket : ExponentialBucket
      pub negative_bucket : ExponentialBucket
      pub zero_threshold : F64
      pub exemplars : List Exemplar

    pub record Gauge : Type 0 where
      pub data_points : List NumberDataPoint
      pub start_time : Option SystemTime
      pub time : SystemTime

    pub record Sum : Type 0 where
      pub data_points : List NumberDataPoint
      pub start_time : SystemTime
      pub time : SystemTime
      pub temporality : Temporality
      pub is_monotonic : Bool

    pub record Histogram : Type 0 where
      pub data_points : List HistogramDataPoint
      pub start_time : SystemTime
      pub time : SystemTime
      pub temporality : Temporality

    pub record ExponentialHistogram : Type 0 where
      pub data_points : List ExponentialHistogramDataPoint
      pub start_time : SystemTime
      pub time : SystemTime
      pub temporality : Temporality

    pub data MetricData : Type 0 where
      gauge : Gauge → MetricData
      sum : Sum → MetricData
      histogram : Histogram → MetricData
      exponential_histogram : ExponentialHistogram → MetricData

  pub data AggregatedMetrics : Type 0 where
    of_f64 : MetricData F64 → AggregatedMetrics
    of_i64 of_u64 : MetricData ℕ → AggregatedMetrics

  pub record Metric : Type 0 where
    pub name : Text
    pub description : Text
    pub unit : Text
    pub aggregated : AggregatedMetrics

  pub record ScopeMetrics : Type 0 where
    pub scope : InstrumentationScope
    pub metrics : List Metric

  pub record ResourceMetrics : Type 0 where
    pub resource : Resource
    pub scope_metrics : List ScopeMetrics

  pub record Event : Type 0 where
    pub name : Text
    pub timestamp : SystemTime
    pub attributes : List KeyValue

  -- Trace states, trace flags, and the ids of traces and spans, whose bytes are all that tells them apart.
  pub record TraceStates : Type 1 where
    pub TraceState : Type 0
    pub header : TraceState → Text
    pub default : TraceState
    -- `TraceFlags`, as bytes: whether one says that the trace is sampled, `SAMPLED`, and the default
    pub is_sampled : ℕ → Bool
    pub sampled_flags : ℕ
    pub default_flags : ℕ
    -- the entries, if they are well-formed
    pub from_key_value : List (Text × Text) → Option TraceState
    -- `{:x}` and `to_string` of an id
    pub lower_hex : Bytes → Text
    pub to_string : Bytes → Text
    pub trace_id_from_hex : Text → Option Bytes
    pub span_id_from_hex : Text → Option Bytes
    pub invalid_trace_id : Bytes
    pub invalid_span_id : Bytes

  module _ (S : TraceStates) where
    pub record SpanContext : Type 0 where
      pub trace_id : Bytes
      pub span_id : Bytes
      -- the byte of the trace flags
      pub trace_flags : ℕ
      pub is_remote : Bool
      pub trace_state : S.TraceState

    pub record Link : Type 0 where
      pub span_context : SpanContext
      pub attributes : List KeyValue

    pub record SpanData : Type 0 where
      pub span_context : SpanContext
      pub parent_span_id : Bytes
      pub span_kind : SpanKind
      pub name : Text
      pub start_time : SystemTime
      pub end_time : SystemTime
      pub attributes : List KeyValue
      pub dropped_attributes_count : ℕ
      pub events : List Event
      pub dropped_events_count : ℕ
      pub links : List Link
      pub dropped_links_count : ℕ
      pub status : Status
      pub instrumentation_scope : InstrumentationScope
