-- ===== src/Foreign/Opentelemetry.antt =====
-- The messages of the OpenTelemetry protocol (the crate `opentelemetry-proto`) that the host sends: an
-- `i32` or an `i64` is its bit pattern, and a field that is a list of a type that the program always
-- leaves empty (`entity_refs`, `metadata`) is left out.
use yetti.Base.{ℕ, Bool, Option, List, Text, Bytes}

module _ (F64 : Type 0) where
  mutual
    -- a value, or none
    pub data AnyValue : Type 0 where
      absent : AnyValue
      bool_value : Bool → AnyValue
      int_value : ℕ → AnyValue
      double_value : F64 → AnyValue
      string_value : Text → AnyValue
      array_value : ArrayValue → AnyValue

    pub data ArrayValue : Type 0 where
      nil : ArrayValue
      cons : AnyValue → ArrayValue → ArrayValue

  pub record KeyValue : Type 0 where
    pub key : Text
    pub value : Option AnyValue

  pub record Resource : Type 0 where
    pub attributes : List KeyValue
    pub dropped_attributes_count : ℕ

  pub record InstrumentationScope : Type 0 where
    pub name : Text
    pub version : Text
    pub attributes : List KeyValue
    pub dropped_attributes_count : ℕ

  -- `number_data_point::Value` and `exemplar::Value`
  pub data Number : Type 0 where
    as_double : F64 → Number
    as_int : ℕ → Number

  pub record Exemplar : Type 0 where
    pub filtered_attributes : List KeyValue
    pub time_unix_nano : ℕ
    pub span_id : Bytes
    pub trace_id : Bytes
    pub value : Option Number

  pub record NumberDataPoint : Type 0 where
    pub attributes : List KeyValue
    pub start_time_unix_nano : ℕ
    pub time_unix_nano : ℕ
    pub exemplars : List Exemplar
    pub flags : ℕ
    pub value : Option Number

  pub record HistogramDataPoint : Type 0 where
    pub attributes : List KeyValue
    pub start_time_unix_nano : ℕ
    pub time_unix_nano : ℕ
    pub count : ℕ
    pub sum : Option F64
    pub bucket_counts : List ℕ
    pub explicit_bounds : List F64
    pub exemplars : List Exemplar
    pub flags : ℕ
    pub min : Option F64
    pub max : Option F64

  pub record Buckets : Type 0 where
    pub offset : ℕ
    pub bucket_counts : List ℕ

  pub record ExponentialHistogramDataPoint : Type 0 where
    pub attributes : List KeyValue
    pub start_time_unix_nano : ℕ
    pub time_unix_nano : ℕ
    pub count : ℕ
    pub sum : Option F64
    pub scale : ℕ
    pub zero_count : ℕ
    pub positive : Option Buckets
    pub negative : Option Buckets
    pub flags : ℕ
    pub exemplars : List Exemplar
    pub min : Option F64
    pub max : Option F64
    pub zero_threshold : F64

  -- `metric::Data`, with the temporality and the monotonicity of those that have one
  pub data MetricData : Type 0 where
    gauge : List NumberDataPoint → MetricData
    sum : List NumberDataPoint → ℕ → Bool → MetricData
    histogram : List HistogramDataPoint → ℕ → MetricData
    exponential_histogram : List ExponentialHistogramDataPoint → ℕ → MetricData

  pub record Metric : Type 0 where
    pub name : Text
    pub description : Text
    pub unit : Text
    pub datum : Option MetricData

  pub record ScopeMetrics : Type 0 where
    pub scope : Option InstrumentationScope
    pub metrics : List Metric
    pub schema_url : Text

  pub record ResourceMetrics : Type 0 where
    pub resource : Option Resource
    pub scope_metrics : List ScopeMetrics
    pub schema_url : Text

  pub record Event : Type 0 where
    pub time_unix_nano : ℕ
    pub name : Text
    pub attributes : List KeyValue
    pub dropped_attributes_count : ℕ

  pub record Link : Type 0 where
    pub trace_id : Bytes
    pub span_id : Bytes
    pub trace_state : Text
    pub attributes : List KeyValue
    pub dropped_attributes_count : ℕ
    pub flags : ℕ

  pub record Status : Type 0 where
    pub code : ℕ
    pub message : Text

  pub record Span : Type 0 where
    pub trace_id : Bytes
    pub span_id : Bytes
    pub trace_state : Text
    pub parent_span_id : Bytes
    pub flags : ℕ
    pub name : Text
    pub kind : ℕ
    pub start_time_unix_nano : ℕ
    pub end_time_unix_nano : ℕ
    pub attributes : List KeyValue
    pub dropped_attributes_count : ℕ
    pub events : List Event
    pub dropped_events_count : ℕ
    pub links : List Link
    pub dropped_links_count : ℕ
    pub status : Option Status

  pub record ScopeSpans : Type 0 where
    pub scope : Option InstrumentationScope
    pub schema_url : Text
    pub spans : List Span

  pub record ResourceSpans : Type 0 where
    pub resource : Option Resource
    pub scope_spans : List ScopeSpans
    pub schema_url : Text

-- `trace::v1::span::SpanKind`
abbrev pub kind_unspecified : ℕ
kind_unspecified = 0

abbrev pub kind_internal : ℕ
kind_internal = 1

abbrev pub kind_server : ℕ
kind_server = 2

abbrev pub kind_client : ℕ
kind_client = 3

abbrev pub kind_producer : ℕ
kind_producer = 4

abbrev pub kind_consumer : ℕ
kind_consumer = 5

-- `trace::v1::status::StatusCode`
abbrev pub status_unset : ℕ
status_unset = 0

abbrev pub status_ok : ℕ
status_ok = 1

abbrev pub status_error : ℕ
status_error = 2

-- `metrics::v1::AggregationTemporality`
abbrev pub unspecified : ℕ
unspecified = 0

abbrev pub delta : ℕ
delta = 1

abbrev pub cumulative : ℕ
cumulative = 2
