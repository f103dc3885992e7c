-- ===== src/Otel/Metrics/Laws.antt =====
-- What the exported metrics keep (crates/wasi-otel/src/host/metrics_impl.rs).
use yetti.Base.{ℕ, ◌+◌, ◌≡◌, refl, List, [], ◌∷◌, map, arith, Text, Bytes, Option, none, some}
use yetti.Base.Lists.{length}
use yetti.Foreign.Opentelemetry
use yetti.Otel.Values.{Floats}
use yetti.Otel.Metrics.{
  MetricData, Metric, ScopeMetrics, ResourceMetrics, gauge, sum, histogram, exponential_histogram,
  metric_data, of_aggregated, metric, scope_metrics, request,
}

length-map {ℓ κ} :
    {A : Type ℓ} {B : Type κ} (f : A → B) (xs : List A) → length (map f xs) ≡ length xs
length-map f [] = refl
length-map f (x ∷ xs) = omega (arith, length-map f xs)

module _ (F : Floats) (decode : Text → Option Bytes) where
  -- The number of data points of what is sent, and of what the guest gave.
  abbrev pub points : Opentelemetry.MetricData F.F64 → ℕ
  points (Opentelemetry.gauge dps) = length dps
  points (Opentelemetry.sum dps temporality monotonic) = length dps
  points (Opentelemetry.histogram dps temporality) = length dps
  points (Opentelemetry.exponential_histogram dps temporality) = length dps

  abbrev pub points_given : MetricData F decode → ℕ
  points_given (gauge g) = length g.data_points
  points_given (sum s) = length s.data_points
  points_given (histogram h) = length h.data_points
  points_given (exponential_histogram h) = length h.data_points

  points-metric_data : (m : MetricData F decode) → points (metric_data F decode m) ≡ points_given m
  unfolding metric_data
  points-metric_data (gauge g) = length-map _ g.data_points
  points-metric_data (sum s) = length-map _ s.data_points
  points-metric_data (histogram h) = length-map _ h.data_points
  points-metric_data (exponential_histogram h) = length-map _ h.data_points

  abbrev pub points_of : Option (Opentelemetry.MetricData F.F64) → ℕ
  points_of none = 0
  points_of (some m) = points m

  abbrev pub in_metrics : List (Opentelemetry.Metric F.F64) → ℕ
  in_metrics [] = 0
  in_metrics (m ∷ ms) = points_of m.datum + in_metrics ms

  abbrev pub in_scopes : List (Opentelemetry.ScopeMetrics F.F64) → ℕ
  in_scopes [] = 0
  in_scopes (s ∷ ss) = in_metrics s.metrics + in_scopes ss

  abbrev pub in_request : List (Opentelemetry.ResourceMetrics F.F64) → ℕ
  in_request [] = 0
  in_request (r ∷ rs) = in_scopes r.scope_metrics + in_request rs

  abbrev pub given_in_metrics : List (Metric F decode) → ℕ
  given_in_metrics [] = 0
  given_in_metrics (m ∷ ms) =
      points_given (of_aggregated F decode m.aggregated) + given_in_metrics ms

  abbrev pub given_in_scopes : List (ScopeMetrics F decode) → ℕ
  given_in_scopes [] = 0
  given_in_scopes (s ∷ ss) = given_in_metrics s.metrics + given_in_scopes ss

  in_metrics-map :
      (ms : List (Metric F decode)) → in_metrics (map (metric F decode) ms) ≡ given_in_metrics ms
  unfolding metric
  in_metrics-map [] = refl
  in_metrics-map (m ∷ ms) =
      omega (arith, in_metrics-map ms, points-metric_data (of_aggregated F decode m.aggregated))

  in_scopes-map :
      (ss : List (ScopeMetrics F decode))
      → in_scopes (map (scope_metrics F decode) ss) ≡ given_in_scopes ss
  unfolding scope_metrics
  in_scopes-map [] = refl
  in_scopes-map (s ∷ ss) = omega (arith, in_scopes-map ss, in_metrics-map s.metrics)

  -- A request for metrics has all the data points that the guest gave, of metrics of all kinds and
  -- scopes.
  in_request-request :
      (rm : ResourceMetrics F decode)
      → in_request (request F decode rm) ≡ given_in_scopes rm.scope_metrics
  unfolding request
  in_request-request rm = omega (arith, in_scopes-map rm.scope_metrics)
