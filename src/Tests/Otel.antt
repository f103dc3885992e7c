-- ===== src/Tests/Otel.antt =====
-- The retries of an exporter that fails twice.
use yetti.Base.{ℕ, zero, suc, ◌-◌, ◌≡◌, refl, some, List, arith}
use yetti.Base.Lists.{length}
use yetti.Base.Exec.{Result, ok, err}
use yetti.Otel.Retry.{Rng, Exporter, World, new, export}
use yetti.Otel.Retry.Laws.{IsBackoff, SucceedsAfter, export-IsBackoff}

-- The generator draws the highest number that it may.
abbrev rng : Rng
rng = record {
  Seed = Unit {0};
  random_range = λ n seed. (n - 1, seed);
  random_range-lt = λ n seed h. omega arith;
}

-- The state is the number of failures to come.
unfoldable pub attempt : ℕ → Result (Unit {0}) (Unit {0}) × ℕ
attempt zero = (ok tt, zero)
attempt (suc n) = (err tt, n)

abbrev exporter : Exporter
exporter = record { State = ℕ; Error = Unit {0}; attempt = attempt }

abbrev w : World rng exporter
w = record { inner = 2; seed = tt }

failing : SucceedsAfter rng exporter 2 2
unfolding attempt
failing = (tt, refl, (tt, refl, refl))

export-IsBackoff_example :
    (times : List ℕ) × (after : World rng exporter) × (export rng exporter new 5 w
      ≡ (some times, after))
    × (length times ≡ 2)
    × IsBackoff 500 times
export-IsBackoff_example = export-IsBackoff rng exporter 2 5 w (omega arith) failing
