-- ===== src/Otel/Guest/Metrics.antt =====
-- The export of a guest's metrics: crates/wasi-otel/src/guest/metrics.rs. The reader of the crate
-- `opentelemetry_sdk` and the conversions of `num_traits` are parameters.
pub mod Laws
use yetti.Base.{
  ℕ, ◌^◌, Bool, Option, none, some, List, [], ◌∷◌, ◌++◌, map, Text, Bytes, ltb, if◌then◌else◌,
}
use yetti.Base.Exec.{Result, ok, err, Exec}
use yetti.Foreign.OtelSdk
use yetti.Otel.Values.{Floats, Datetime, KeyValue, Resource}
use yetti.Otel.Metrics
use yetti.Otel.Metrics.{
  Temporality, cumulative, delta, low_memory, DataValue, f64, u64, s64, Exemplar, NumberDataPoint,
  HistogramDataPoint, ExponentialBucket, ExponentialHistogramDataPoint, Gauge, Sum, Histogram,
  ExponentialHistogram, MetricData, gauge, sum, histogram, exponential_histogram, AggregatedMetrics,
  of_f64, of_u64, of_s64, Metric, ScopeMetrics, ResourceMetrics,
}
use yetti.Otel.Guest.Convert.{datetime, key_value, instrumentation_scope}

-- `ToPrimitive` of the crate `num_traits`: the integer part as an unsigned or a signed integer where
-- that is in range.
pub record ToPrimitive (F : Floats) (T : Type 0) : Type 0 where
  pub to_u64 : T → Option ℕ
  pub to_i64 : T → Option ℕ
  pub to_f64 : T → Option F.F64

-- `From<Temporality>`
unfoldable pub temporality : OtelSdk.Temporality → Temporality
temporality OtelSdk.delta = delta
temporality OtelSdk.cumulative = cumulative
temporality OtelSdk.low_memory = low_memory

module _ (F : Floats) where
  -- `u64` and `i64`
  abbrev pub unsigned : ToPrimitive F ℕ
  unsigned = record {
    to_u64 = λ n. some n;
    to_i64 = λ n. if ltb n (2 ^ 63) then some n else none;
    to_f64 = λ n. some (F.of_u64 n);
  }

  abbrev pub signed : ToPrimitive F ℕ
  signed = record {
    to_u64 = λ n. if ltb n (2 ^ 63) then some n else none;
    to_i64 = λ n. some n;
    to_f64 = λ n. some (F.of_i64 n);
  }

-- `decode` is the host's; `lossy` is `String::from_utf8_lossy`
module _ (F : Floats) (decode : Text → Option Bytes) (lossy : Bytes → Text) where
  unfoldable pub resource : OtelSdk.Resource F.F64 → Resource F
  unfolding key_value
  resource r = record { attributes = map (key_value F) r.attributes; schema_url = r.schema_url }

  abbrev float_or_default : Option F.F64 → F.F64
  float_or_default none = F.of_u64 0
  float_or_default (some x) = x

  unfoldable pub exponential_bucket : OtelSdk.ExponentialBucket → ExponentialBucket F decode
  exponential_bucket bucket = record { offset = bucket.offset; counts = bucket.counts }

  module _ {T : Type 0} (N : ToPrimitive F T) where
    -- `From<T> for DataValue`
    unfoldable pub data_value : T → DataValue F decode
    data_value value = elim (N.to_u64 value) [
      | some n ↦ u64 n
      | none ↦ elim (N.to_i64 value) [
        | some n ↦ s64 n
        | none ↦ f64 (float_or_default (N.to_f64 value))
      ]
    ]

    abbrev pub option_value : Option T → Option (DataValue F decode)
    unfolding data_value
    option_value none = none
    option_value (some value) = some (data_value value)

    unfoldable pub exemplar : OtelSdk.Exemplar F.F64 T → Exemplar F decode
    unfolding key_value datetime data_value
    exemplar e = record {
      filtered_attributes = map (key_value F) e.filtered_attributes;
      time = datetime e.time;
      value = data_value e.value;
      span_id = lossy e.span_id;
      trace_id = lossy e.trace_id;
    }

    -- `From<&GaugeDataPoint<T>>` and `From<&SumDataPoint<T>>`
    unfoldable pub number_data_point : OtelSdk.NumberDataPoint F.F64 T → NumberDataPoint F decode
    unfolding key_value data_value exemplar
    number_data_point dp = record {
      attributes = map (key_value F) dp.attributes;
      value = data_value dp.value;
      exemplars = map exemplar dp.exemplars;
    }

    unfoldable pub histogram_data_point :
        OtelSdk.HistogramDataPoint F.F64 T → HistogramDataPoint F decode
    unfolding key_value data_value exemplar option_value
    histogram_data_point dp = record {
      attributes = map (key_value F) dp.attributes;
      count = dp.count;
      bounds = dp.bounds;
      bucket_counts = dp.bucket_counts;
      min = option_value dp.min;
      max = option_value dp.max;
      sum = data_value dp.sum;
      exemplars = map exemplar dp.exemplars;
    }

    unfoldable pub exponential_histogram_data_point :
        OtelSdk.ExponentialHistogramDataPoint F.F64 T → ExponentialHistogramDataPoint F decode
    unfolding key_value data_value exemplar option_value exponential_bucket
    exponential_histogram_data_point dp = record {
      attributes = map (key_value F) dp.attributes;
      count = dp.count;
      min = option_value dp.min;
      max = option_value dp.max;
      sum = data_value dp.sum;
      scale = dp.scale;
      zero_count = dp.zero_count;
      positive_bucket = exponential_bucket dp.positive_bucket;
      negative_bucket = exponential_bucket dp.negative_bucket;
      zero_threshold = dp.zero_threshold;
      exemplars = map exemplar dp.exemplars;
    }

    abbrev start : Option OtelSdk.SystemTime → Option Datetime
    unfolding datetime
    start none = none
    start (some t) = some (datetime t)

    -- `From<&MetricData<T>>`, with the conversions of the four kinds of metrics
    unfoldable pub metric_data : OtelSdk.MetricData F.F64 T → MetricData F decode
    unfolding number_data_point histogram_data_point exponential_histogram_data_point datetime
        temporality start
    metric_data (OtelSdk.gauge g) = gauge (record {
      data_points = map number_data_point g.data_points;
      start_time = start g.start_time;
      time = datetime g.time;
    })
    metric_data (OtelSdk.sum s) = sum (record {
      data_points = map number_data_point s.data_points;
      start_time = datetime s.start_time;
      time = datetime s.time;
      temporality = temporality s.temporality;
      is_monotonic = s.is_monotonic;
    })
    metric_data (OtelSdk.histogram h) = histogram (record {
      data_points = map histogram_data_point h.data_points;
      start_time = datetime h.start_time;
      time = datetime h.time;
      temporality = temporality h.temporality;
    })
    metric_data (OtelSdk.exponential_histogram h) = exponential_histogram (record {
      data_points = map exponential_histogram_data_point h.data_points;
      start_time = datetime h.start_time;
      time = datetime h.time;
      temporality = temporality h.temporality;
    })

  -- `floats` are the conversions of `f64`
  module _ (floats : ToPrimitive F F.F64) where
    unfoldable pub aggregated : OtelSdk.AggregatedMetrics F.F64 → AggregatedMetrics F decode
    unfolding metric_data
    aggregated (OtelSdk.of_f64 v) = of_f64 (metric_data floats v)
    aggregated (OtelSdk.of_i64 v) = of_s64 (metric_data (signed F) v)
    aggregated (OtelSdk.of_u64 v) = of_u64 (metric_data (unsigned F) v)

    unfoldable pub metric : OtelSdk.Metric F.F64 → Metric F decode
    unfolding aggregated
    metric m = record {
      name = m.name;
      description = m.description;
      unit = m.unit;
      aggregated = aggregated m.aggregated;
    }

    unfoldable pub scope_metrics : OtelSdk.ScopeMetrics F.F64 → ScopeMetrics F decode
    unfolding metric instrumentation_scope
    scope_metrics sm = record {
      scope = instrumentation_scope F sm.scope;
      metrics = map metric sm.metrics;
    }

    unfoldable pub resource_metrics : OtelSdk.ResourceMetrics F.F64 → ResourceMetrics F decode
    unfolding resource scope_metrics
    resource_metrics rm = record {
      resource = resource rm.resource;
      scope_metrics = map scope_metrics rm.scope_metrics;
    }

    -- `ManualReader`, as far as its `collect` shows it
    pub record ManualReader : Type 1 where
      pub State : Type 0
      pub Error : Type 0
      pub collect : Exec State Error (OtelSdk.ResourceMetrics F.F64)

    module _ (reader : ManualReader) where
      -- the reader and the exports that were spawned, the first one first
      pub record Reader : Type 0 where
        pub inner : reader.State
        pub spawned : List (ResourceMetrics F decode)

      abbrev spawn :
          Result reader.Error (OtelSdk.ResourceMetrics F.F64)
          → reader.State
          → List (ResourceMetrics F decode)
          → Result reader.Error (Unit {0}) × Reader
      unfolding resource_metrics
      spawn (ok rm) inner spawned =
          (ok tt, record { inner = inner; spawned = spawned ++ resource_metrics rm ∷ [] })
      spawn (err e) inner spawned = (err e, record { inner = inner; spawned = spawned })

      unfoldable pub shutdown_with_timeout : Exec Reader reader.Error (Unit {0})
      unfolding spawn
      shutdown_with_timeout r =
          let (result, inner) = reader.collect r.inner in spawn result inner r.spawned
