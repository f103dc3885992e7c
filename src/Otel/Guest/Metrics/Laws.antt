-- ===== src/Otel/Guest/Metrics/Laws.antt =====
-- What the numbers of a guest's metrics are at the collector: the conversions of the guest
-- (crates/wasi-otel/src/guest/metrics.rs), then those of the host (src/host/metrics_impl.rs).
use yetti.Base.{
  ℕ, ◌≡◌, refl, ◌^◌, Option, some, List, [], ◌∷◌, map, Text, Bytes, ltb, Bool-cases, inl, inr,
}
use yetti.Base.Lists.{All}
use yetti.Foreign.Opentelemetry
use yetti.Foreign.OtelSdk
use yetti.Otel.Values.{Floats}
use yetti.Otel.Metrics
use yetti.Otel.Guest.Metrics.{
  ToPrimitive, unsigned, signed, data_value, number_data_point, metric_data,
}

module _ (F : Floats) where
  -- The numbers of the points of a gauge or a sum that is sent, and of one that was measured.
  abbrev pub values_of :
      List (Opentelemetry.NumberDataPoint F.F64) → List (Option (Opentelemetry.Number F.F64))
  values_of [] = []
  values_of (dp ∷ dps) = dp.value ∷ values_of dps

  abbrev pub values : Opentelemetry.MetricData F.F64 → List (Option (Opentelemetry.Number F.F64))
  values (Opentelemetry.gauge dps) = values_of dps
  values (Opentelemetry.sum dps temporality monotonic) = values_of dps
  values (Opentelemetry.histogram dps temporality) = []
  values (Opentelemetry.exponential_histogram dps temporality) = []

  abbrev pub measured_in : {T : Type 0} → List (OtelSdk.NumberDataPoint F.F64 T) → List T
  measured_in [] = []
  measured_in (dp ∷ dps) = dp.value ∷ measured_in dps

  abbrev pub measured : {T : Type 0} → OtelSdk.MetricData F.F64 T → List T
  measured (OtelSdk.gauge g) = measured_in g.data_points
  measured (OtelSdk.sum s) = measured_in s.data_points
  measured (OtelSdk.histogram h) = []
  measured (OtelSdk.exponential_histogram h) = []

  module _ (decode : Text → Option Bytes) (lossy : Bytes → Text) where
    module _ {T : Type 0} (N : ToPrimitive F T) where
      -- The metric as the host sends it.
      abbrev pub sent : OtelSdk.MetricData F.F64 T → Opentelemetry.MetricData F.F64
      sent m = Metrics.metric_data F decode (metric_data F decode lossy N m)

      -- Whether a measurement arrives as this integer.
      abbrev ArrivesAs : (T → ℕ) → T → Type 0
      ArrivesAs f x =
          Metrics.number F decode (data_value F decode lossy N x) ≡ Opentelemetry.as_int (f x)

      values_of-map :
          (f : T → ℕ) (start time : ℕ) (dps : List (OtelSdk.NumberDataPoint F.F64 T))
          → All (ArrivesAs f) (measured_in dps)
          → values_of (
              map
                (Metrics.number_data_point F decode start time)
                (map (number_data_point F decode lossy N) dps))
            ≡ map (λ x. some (Opentelemetry.as_int (f x))) (measured_in dps)
      unfolding Metrics.number_data_point number_data_point
      values_of-map f start time [] all = refl
      values_of-map f start time (dp ∷ dps) (e, all) = rw (e, values_of-map f start time dps all)

      values-sent :
          (f : T → ℕ) (m : OtelSdk.MetricData F.F64 T)
          → All (ArrivesAs f) (measured m)
          → values (sent m) ≡ map (λ x. some (Opentelemetry.as_int (f x))) (measured m)
      unfolding Metrics.metric_data metric_data
      values-sent f (OtelSdk.gauge g) all = values_of-map f _ _ g.data_points all
      values-sent f (OtelSdk.sum s) all = values_of-map f _ _ s.data_points all
      values-sent f (OtelSdk.histogram h) all = refl
      values-sent f (OtelSdk.exponential_histogram h) all = refl

      data_value_u64 :
          (x : T) (n : ℕ)
          → N.to_u64 x ≡ some n
          → Metrics.number F decode (data_value F decode lossy N x) ≡ Opentelemetry.as_int n
      unfolding Metrics.number data_value
      data_value_u64 x n e = rw (e, data_value)

      truncated :
          (f : T → ℕ) (xs : List T) → All (λ x. N.to_u64 x ≡ some (f x)) xs → All (ArrivesAs f) xs
      truncated f [] all = tt
      truncated f (x ∷ xs) (e, all) = (data_value_u64 x (f x) e, truncated f xs all)

      -- The numbers of a gauge or a sum whose measurements all have an integer part in the range of a
      -- `u64` arrive as these integer parts, in order. For floating-point numbers this loses the
      -- fractions: two measurements with one integer part are the same at the collector.
      pub values-truncated :
          (integer_part : T → ℕ) (m : OtelSdk.MetricData F.F64 T)
          → All (λ x. N.to_u64 x ≡ some (integer_part x)) (measured m)
          → values (sent m) ≡ map (λ x. some (Opentelemetry.as_int (integer_part x))) (measured m)
      values-truncated f m all = values-sent f m (truncated f (measured m) all)

    All-unsigned : (ns : List ℕ) → All (ArrivesAs (unsigned F) (λ n. n)) ns
    unfolding Metrics.number data_value
    All-unsigned [] = tt
    All-unsigned (n ∷ ns) = (refl, All-unsigned ns)

    signed_lem :
        (n : ℕ)
        → Metrics.number F decode (data_value F decode lossy (signed F) n) ≡ Opentelemetry.as_int n
    unfolding Metrics.number data_value
    signed_lem n = elim (Bool-cases (ltb n (2 ^ 63))) [
      | inl small ↦ rw (small, data_value)
      | inr large ↦ rw (large, data_value)
    ]

    All-signed : (ns : List ℕ) → All (ArrivesAs (signed F) (λ n. n)) ns
    All-signed [] = tt
    All-signed (n ∷ ns) = (signed_lem n, All-signed ns)

    -- The measurements of a gauge or a sum of integers, signed or not, arrive at the collector as they
    -- are, bit by bit and in order.
    pub values-integers :
        (m : OtelSdk.MetricData F.F64 ℕ)
        → (values (sent (unsigned F) m) ≡ map (λ n. some (Opentelemetry.as_int n)) (measured m))
          × (values (sent (signed F) m) ≡ map (λ n. some (Opentelemetry.as_int n)) (measured m))
    values-integers m = (
      values-sent (unsigned F) (λ n. n) m (All-unsigned (measured m)),
      values-sent (signed F) (λ n. n) m (All-signed (measured m)),
    )
