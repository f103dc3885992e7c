-- ===== src/Otel/Retry/Laws.antt =====
-- How long the wrappers of exporters wait (crates/otel/src/retry.rs).
use yetti.Base.{
  ℕ, zero, suc, ◌+◌, ◌*◌, ◌/◌, ◌<◌, ◌≤◌, ◌≡◌, refl, ap, some, List, [], ◌∷◌, ltb, if◌then◌else◌,
  arith,
}
use yetti.Base.Lists.{length}
use yetti.Base.Exec.{ok, err}
use yetti.Otel.Retry.{new, Rng, Exporter, step, World, attempts, export}

-- The delay after one failure.
abbrev pub next_delay : ℕ → ℕ
next_delay d = if ltb 30000 (d * 2) then 30000 else d * 2

-- Times slept from the delay `d` on: each is the delay with less than half of it added, and at most
-- 45 s.
abbrev pub IsBackoff : ℕ → List ℕ → Type 0
IsBackoff d [] = Unit
IsBackoff d (t ∷ ts) = (d ≤ t) × (2 * t < 3 * d) × (t < 45000) × IsBackoff (next_delay d) ts

module _ (rng : Rng) (exporter : Exporter) where
  -- `n` attempts in a row fail, and the next one succeeds.
  abbrev pub SucceedsAfter : ℕ → exporter.State → Type 0
  SucceedsAfter zero s = (exporter.attempt s).0 ≡ ok tt
  SucceedsAfter (suc n) s =
      (e : exporter.Error) × ((exporter.attempt s).0 ≡ err e)
      × SucceedsAfter n (exporter.attempt s).1

  attempts_ok :
      (fuel d : ℕ) (w : World rng exporter)
      → (exporter.attempt w.inner).0 ≡ ok tt
      → attempts rng exporter new (suc fuel) d w
        ≡ (some [], record w { inner = (exporter.attempt w.inner).1 })
  unfolding attempts
  attempts_ok fuel d w done = rw (done, attempts)

  -- The world after a failed attempt.
  abbrev failed_world : ℕ → World rng exporter → World rng exporter
  failed_world d w = record {
    inner = (exporter.attempt w.inner).1;
    seed = (rng.random_range (d * 50 / 100) w.seed).1;
  }

  attempts_err :
      (fuel d : ℕ) (w : World rng exporter) (e : exporter.Error) (times : List ℕ)
      (after : World rng exporter)
      → (exporter.attempt w.inner).0 ≡ err e
      → attempts rng exporter new fuel (next_delay d) (failed_world d w) ≡ (some times, after)
      → attempts rng exporter new (suc fuel) d w
        ≡ (some ((d + (rng.random_range (d * 50 / 100) w.seed).0) ∷ times), after)
  unfolding attempts step
  attempts_err fuel d w e times after failed ran =
      rw (failed, attempts)
        (rw ran
          (ap (λ p. (some ((d + (rng.random_range (d * 50 / 100) w.seed).0) ∷ times), p.1)) ran))

  attempts_lem :
      (n fuel d : ℕ) (w : World rng exporter)
      → n < fuel
      → 500 ≤ d
      → d ≤ 30000
      → SucceedsAfter n w.inner
      → (times : List ℕ) × (after : World rng exporter) × (attempts rng exporter new fuel d w
          ≡ (some times, after))
        × (length times ≡ n)
        × IsBackoff d times
  attempts_lem n zero d w enough low high h = absurd (omega arith)
  attempts_lem zero (suc fuel) d w enough low high done =
      ([], record w { inner = (exporter.attempt w.inner).1 }, attempts_ok fuel d w done, refl, tt)
  attempts_lem (suc n) (suc fuel) d w enough low high (e, failed, rest) =
      let small = rng.random_range-lt (d * 50 / 100) w.seed (omega arith) in
      let grown : 500 ≤ next_delay d = ground arith in
      let capped : next_delay d ≤ 30000 = ground arith in
      let (times, after, ran, counted, shape) =
        attempts_lem n fuel (next_delay d) (failed_world d w) (omega arith) grown capped rest in
      (
        (d + (rng.random_range (d * 50 / 100) w.seed).0) ∷ times,
        after,
        attempts_err fuel d w e times after failed ran,
        rw counted,
        (omega arith, omega arith, omega arith, shape),
      )

  -- If the exporter fails `n` times and then succeeds, the loop ends with success whenever it may
  -- make more than `n` attempts, having slept `n` times. Each time is the current delay plus less
  -- than half of it, below 45 s; the delay starts at half a second, doubles with each failure and
  -- stays at 30 s.
  pub export-IsBackoff :
      (n fuel : ℕ) (w : World rng exporter)
      → n < fuel
      → SucceedsAfter n w.inner
      → (times : List ℕ) × (after : World rng exporter) × (export rng exporter new fuel w
          ≡ (some times, after))
        × (length times ≡ n)
        × IsBackoff 500 times
  unfolding export
  export-IsBackoff n fuel w enough h =
      attempts_lem n fuel 500 w enough (omega arith) (omega arith) h
