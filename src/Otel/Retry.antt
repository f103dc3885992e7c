-- ===== src/Otel/Retry.antt =====
-- The retries of exports with exponential backoff: crates/otel/src/retry.rs. Durations are in
-- milliseconds. The delay is doubled in `f64`, which is exact here.
pub mod Laws
use yetti.Base.{
  ℕ, zero, suc, ◌+◌, ◌*◌, ◌/◌, ◌<◌, Option, none, some, List, [], ◌∷◌, ltb, if◌then◌else◌,
}
use yetti.Base.Exec.{Result, ok, err}

pub record Backoff : Type 0 where
  pub initial : ℕ
  pub growth_factor : ℕ
  pub max_delay : ℕ
  pub jitter_percent : ℕ

-- `Backoff::new`
abbrev pub new : Backoff
new = record { initial = 500; growth_factor = 2; max_delay = 30000; jitter_percent = 50 }

abbrev pub init_delay : Backoff → ℕ
init_delay self = self.initial

-- The generator `rand::rng`: `random_range(0..n)` is below a positive `n` (and panics at zero).
pub record Rng : Type 1 where
  pub Seed : Type 0
  pub random_range : ℕ → Seed → ℕ × Seed
  pub random_range-lt : (n : ℕ) (seed : Seed) → 0 < n → (random_range n seed).0 < n

-- The exporter that is wrapped, of spans or of metrics.
pub record Exporter : Type 1 where
  pub State : Type 0
  pub Error : Type 0
  pub attempt : State → Result Error (Unit {0}) × State

-- What a step returns: the time to sleep, and the updated delay.
unfoldable pub step : (rng : Rng) → Backoff → ℕ → rng.Seed → (ℕ × ℕ) × rng.Seed
step rng self delay seed =
    let (jitter, seed1) = rng.random_range (delay * self.jitter_percent / 100) seed in
    let grown = delay * self.growth_factor in
    ((delay + jitter, if ltb self.max_delay grown then self.max_delay else grown), seed1)

module _ (rng : Rng) (exporter : Exporter) where
  pub record World : Type 0 where
    pub inner : exporter.State
    pub seed : rng.Seed

  -- The loop of at most `fuel` attempts: the times slept between them, and none if the fuel ran out.
  unfoldable pub attempts : Backoff → ℕ → ℕ → World → Option (List ℕ) × World
  attempts self zero delay w = (none, w)
  attempts self (suc fuel) delay w =
      let (result, inner) = exporter.attempt w.inner in
      let ((total_delay, next), seed) = step rng self delay w.seed in
      let (slept, after) = attempts self fuel next (record { inner = inner; seed = seed }) in
      elim result [
        | ok _ ↦ (some [], record w { inner = inner })
        | err _ ↦ elim slept [
          | none ↦ (none, after)
          | some times ↦ (some (total_delay ∷ times), after)
        ]
      ]

  -- `export` of both wrappers
  unfoldable pub export : Backoff → ℕ → World → Option (List ℕ) × World
  export self fuel w = attempts self fuel (init_delay self) w
