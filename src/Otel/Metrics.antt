-- ===== src/Otel/Metrics.antt =====
-- The export of metrics by `wasi:otel/metrics`: crates/wasi-otel/src/host/metrics_impl.rs. The crate
-- `hex` is a parameter.
pub mod Laws
use yetti.Base.{
  ℕ, ◌+◌, ◌%◌, ◌^◌, ◌-◌, Bool, true, false, Option, none, some, List, [], ◌∷◌, ◌++◌, map, Text,
  Bytes, leb, if◌then◌else◌,
}
use yetti.Base.Exec.{Result, ok, err, Exec, map_err}
use yetti.Foreign.Anyhow.{Anyhow}
use yetti.Foreign.Opentelemetry
pub use yetti.Otel.MetricData.{
  Temporality, cumulative, delta, low_memory, DataValue, Exemplar, NumberDataPoint,
  HistogramDataPoint, ExponentialBucket, ExponentialHistogramDataPoint, Gauge, Sum, Histogram,
  ExponentialHistogram, MetricData, AggregatedMetrics, Metric, ScopeMetrics, ResourceMetrics, f64,
  u64, s64, gauge, sum, histogram, exponential_histogram, of_f64, of_u64, of_s64,
}
use yetti.Otel.Values.{
  Floats, Datetime, to_u64, unwrap_or_default, KeyValue, Resource, InstrumentationScope, key_value,
  resource, instrumentation_scope,
}

-- The variant `error` of `wasi:otel/types`.
pub data Error : Type 0 where
  already_shutdown : Error
  timeout : ℕ → Error
  internal_failure : Text → Error

-- `From<Temporality> for AggregationTemporality`, and its number
unfoldable pub aggregation_temporality : Temporality → ℕ
aggregation_temporality cumulative = Opentelemetry.cumulative
aggregation_temporality delta = Opentelemetry.delta
aggregation_temporality low_memory = Opentelemetry.unspecified

-- `DataPointFlags::DoNotUse`
abbrev pub default_flags : ℕ
default_flags = 0

module _ (F : Floats) (decode : Text → Option Bytes) where
  abbrev pub decode_or_default : Text → Bytes
  decode_or_default t = elim (decode t) [ none ↦ [] | some b ↦ b ]

  -- `From<DataValue>` for the two `Value`s and for `f64`: `as i64` keeps the bits of a `u64`
  unfoldable pub number : DataValue F decode → Opentelemetry.Number F.F64
  number (u64 v) = Opentelemetry.as_int v
  number (s64 v) = Opentelemetry.as_int v
  number (f64 v) = Opentelemetry.as_double v

  unfoldable pub to_f64 : DataValue F decode → F.F64
  to_f64 (u64 v) = F.of_u64 v
  to_f64 (s64 v) = F.of_i64 v
  to_f64 (f64 v) = v

  unfoldable pub exemplar : Exemplar F decode → Opentelemetry.Exemplar F.F64
  unfolding number to_u64 key_value
  exemplar ex = record {
    filtered_attributes = map (key_value F) ex.filtered_attributes;
    time_unix_nano = to_u64 ex.time;
    span_id = decode_or_default ex.span_id;
    trace_id = decode_or_default ex.trace_id;
    value = some (number ex.value);
  }

  abbrev start_or_default : Option Datetime → ℕ
  start_or_default none = 0
  start_or_default (some t) = to_u64 t

  abbrev pub option_f64 : Option (DataValue F decode) → Option F.F64
  option_f64 none = none
  option_f64 (some v) = some (to_f64 v)

  unfoldable pub number_data_point :
      ℕ → ℕ → NumberDataPoint F decode → Opentelemetry.NumberDataPoint F.F64
  unfolding exemplar number key_value
  number_data_point start time dp = record {
    attributes = map (key_value F) dp.attributes;
    start_time_unix_nano = start;
    time_unix_nano = time;
    exemplars = map exemplar dp.exemplars;
    flags = default_flags;
    value = some (number dp.value);
  }

  unfoldable pub histogram_data_point :
      ℕ → ℕ → HistogramDataPoint F decode → Opentelemetry.HistogramDataPoint F.F64
  unfolding exemplar to_f64 key_value
  histogram_data_point start time dp = record {
    attributes = map (key_value F) dp.attributes;
    start_time_unix_nano = start;
    time_unix_nano = time;
    count = dp.count;
    sum = some (to_f64 dp.sum);
    bucket_counts = dp.bucket_counts;
    explicit_bounds = dp.bounds;
    exemplars = map exemplar dp.exemplars;
    flags = default_flags;
    min = option_f64 dp.min;
    max = option_f64 dp.max;
  }

  abbrev buckets : ExponentialBucket F decode → Option (Opentelemetry.Buckets F.F64)
  buckets b = some (record { offset = b.offset; bucket_counts = b.counts })

  -- the scale, from `s8` to `i32`
  abbrev pub sign_extend : ℕ → ℕ
  sign_extend scale = if leb 128 scale then scale + (2 ^ 32 - 256) else scale

  unfoldable pub exponential_histogram_data_point :
      ℕ
      → ℕ
      → ExponentialHistogramDataPoint F decode
      → Opentelemetry.ExponentialHistogramDataPoint F.F64
  unfolding exemplar to_f64 key_value
  exponential_histogram_data_point start time dp = record {
    attributes = map (key_value F) dp.attributes;
    start_time_unix_nano = start;
    time_unix_nano = time;
    count = dp.count;
    sum = some (to_f64 dp.sum);
    scale = sign_extend dp.scale;
    zero_count = dp.zero_count;
    positive = buckets dp.positive_bucket;
    negative = buckets dp.negative_bucket;
    flags = default_flags;
    exemplars = map exemplar dp.exemplars;
    min = option_f64 dp.min;
    max = option_f64 dp.max;
    zero_threshold = dp.zero_threshold;
  }

  unfoldable pub metric_data : MetricData F decode → Opentelemetry.MetricData F.F64
  unfolding number_data_point histogram_data_point exponential_histogram_data_point to_u64
      aggregation_temporality
  metric_data (gauge g) =
      Opentelemetry.gauge
        (map (number_data_point (start_or_default g.start_time) (to_u64 g.time)) g.data_points)
  metric_data (sum s) =
      Opentelemetry.sum
        (map (number_data_point (to_u64 s.start_time) (to_u64 s.time)) s.data_points)
        (aggregation_temporality s.temporality) s.is_monotonic
  metric_data (histogram h) =
      Opentelemetry.histogram
        (map (histogram_data_point (to_u64 h.start_time) (to_u64 h.time)) h.data_points)
        (aggregation_temporality h.temporality)
  metric_data (exponential_histogram h) =
      Opentelemetry.exponential_histogram
        (map (exponential_histogram_data_point (to_u64 h.start_time) (to_u64 h.time)) h.data_points)
        (aggregation_temporality h.temporality)

  abbrev pub of_aggregated : AggregatedMetrics F decode → MetricData F decode
  of_aggregated (of_f64 m) = m
  of_aggregated (of_u64 m) = m
  of_aggregated (of_s64 m) = m

  unfoldable pub metric : Metric F decode → Opentelemetry.Metric F.F64
  unfolding metric_data
  metric m = record {
    name = m.name;
    description = m.description;
    unit = m.unit;
    datum = some (metric_data (of_aggregated m.aggregated));
  }

  unfoldable pub scope_metrics : ScopeMetrics F decode → Opentelemetry.ScopeMetrics F.F64
  unfolding metric instrumentation_scope
  scope_metrics sm = record {
    scope = some (instrumentation_scope F sm.scope);
    metrics = map metric sm.metrics;
    schema_url = unwrap_or_default sm.scope.schema_url;
  }

  -- `From<ResourceMetrics> for ExportMetricsServiceRequest`
  unfoldable pub request : ResourceMetrics F decode → List (Opentelemetry.ResourceMetrics F.F64)
  unfolding scope_metrics resource
  request rm =
      record {
        resource = some (resource F rm.resource);
        scope_metrics = map scope_metrics rm.scope_metrics;
        schema_url = unwrap_or_default rm.resource.schema_url;
      }
      ∷ []

  -- A context, `WasiOtelCtx`.
  pub record Context (ah : Anyhow) : Type 1 where
    pub State : Type 0
    pub export_metrics : List (Opentelemetry.ResourceMetrics F.F64) → Exec State ah.Error (Unit {0})
    pub export_traces : List (Opentelemetry.ResourceSpans F.F64) → Exec State ah.Error (Unit {0})

  module _ {ah : Anyhow} (C : Context ah) where
    abbrev pub from_anyhow : Exec C.State ah.Error (Unit {0}) → Exec C.State Error (Unit {0})
    from_anyhow m s = let (r, s') = m s in (map_err (λ e. internal_failure (ah.to_string e)) r, s')

    -- The export, with whether OpenTelemetry is initialised.
    unfoldable pub export : Bool → ResourceMetrics F decode → Exec C.State Error (Unit {0})
    unfolding request
    export initialized rm =
        if initialized then from_anyhow (C.export_metrics (request rm)) else λ s. (ok tt, s)

  -- `OtelDefault`, which logs how much it was given
  abbrev pub otel_default : (ah : Anyhow) → Context ah
  otel_default ah = record {
    State = Unit {0};
    export_metrics = λ request s. (ok tt, s);
    export_traces = λ request s. (ok tt, s);
  }
