-- ===== src/Otel/MetricData.antt =====
-- The metrics of `wasi:otel/metrics` as the guest gives them, by the interface's types; an `i64` is its
-- 64-bit pattern, an `i32` its 32-bit pattern and an `s8` its 8-bit pattern. `decode` is the host's.
use yetti.Base.{ℕ, Bool, Option, List, Text, Bytes}
use yetti.Otel.Values.{Floats, Datetime, KeyValue, Resource, InstrumentationScope}

pub data Temporality : Type 0 where
  cumulative delta low_memory : Temporality

module _ (F : Floats) (decode : Text → Option Bytes) where
  pub data DataValue : Type 0 where
    f64 : F.F64 → DataValue
    u64 s64 : ℕ → DataValue

  pub record Exemplar : Type 0 where
    pub filtered_attributes : List (KeyValue F)
    pub time : Datetime
    pub value : DataValue
    pub span_id : Text
    pub trace_id : Text

  -- the data points of gauges and sums
  pub record NumberDataPoint : Type 0 where
    pub attributes : List (KeyValue F)
    pub value : DataValue
    pub exemplars : List Exemplar

  pub record HistogramDataPoint : Type 0 where
    pub attributes : List (KeyValue F)
    pub count : ℕ
    pub bounds : List F.F64
    pub bucket_counts : List ℕ
    pub min : Option DataValue
    pub max : Option DataValue
    pub sum : DataValue
    pub exemplars : List Exemplar

  pub record ExponentialBucket : Type 0 where
    -- an `s32`
    pub offset : ℕ
    pub counts : List ℕ

  pub record ExponentialHistogramDataPoint : Type 0 where
    pub attributes : List (KeyValue F)
    pub count : ℕ
    pub min : Option DataValue
    pub max : Option DataValue
    pub sum : DataValue
    -- an `s8`
    pub scale : ℕ
    pub zero_count : ℕ
    pub positive_bucket : ExponentialBucket
    pub negative_bucket : ExponentialBucket
    pub zero_threshold : F.F64
    pub exemplars : List Exemplar

  pub record Gauge : Type 0 where
    pub data_points : List NumberDataPoint
    pub start_time : Option Datetime
    pub time : Datetime

  pub record Sum : Type 0 where
    pub data_points : List NumberDataPoint
    pub start_time : Datetime
    pub time : Datetime
    pub temporality : Temporality
    pub is_monotonic : Bool

  pub record Histogram : Type 0 where
    pub data_points : List HistogramDataPoint
    pub start_time : Datetime
    pub time : Datetime
    pub temporality : Temporality

  pub record ExponentialHistogram : Type 0 where
    pub data_points : List ExponentialHistogramDataPoint
    pub start_time : Datetime
    pub time : Datetime
    pub temporality : Temporality

  pub data MetricData : Type 0 where
    gauge : Gauge → MetricData
    sum : Sum → MetricData
    histogram : Histogram → MetricData
    exponential_histogram : ExponentialHistogram → MetricData

  pub data AggregatedMetrics : Type 0 where
    of_f64 of_u64 of_s64 : MetricData → AggregatedMetrics

  pub record Metric : Type 0 where
    pub name : Text
    pub description : Text
    pub unit : Text
    pub aggregated : AggregatedMetrics

  pub record ScopeMetrics : Type 0 where
    pub scope : InstrumentationScope F
    pub metrics : List Metric

  pub record ResourceMetrics : Type 0 where
    pub resource : Resource F
    pub scope_metrics : List ScopeMetrics
