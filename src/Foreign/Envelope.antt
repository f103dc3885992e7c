-- ===== src/Foreign/Envelope.antt =====
-- What the guest's cache uses of `chrono` and `serde_json`. A time is the number of nanoseconds since
-- the earliest instant of `chrono`, which lies on a whole second.
use yetti.Base.{
  ℕ, ◌+◌, ◌*◌, ◌≤◌, ◌^◌, ◌≡◌, Option, none, some, List, [], ◌∷◌, arith, Bytes, leb, if◌then◌else◌,
}
use yetti.Base.Exec.{Result, ok, err}
use yetti.Foreign.Anyhow.{Anyhow, chained}

abbrev pub second : ℕ
second = 10 ^ 9

pub record Chrono : Type 0 where
  -- the latest time that `DateTime<Utc>` holds
  pub max_time : ℕ
  -- `now + Duration::seconds(secs)`, `secs` a 64-bit pattern; `none` is a panic
  pub add_seconds : ℕ → ℕ → Option ℕ
  pub add_seconds_lem :
      (now secs : ℕ)
      → now + secs * second ≤ max_time
      → add_seconds now secs ≡ some (now + secs * second)

-- `serde_json` at the type `Cacheable`: the time is written in whole seconds.
pub record Json (ah : Anyhow) : Type 0 where
  pub to_vec : Bytes → ℕ → Result ah.Error Bytes
  pub from_slice : Bytes → Result ah.Error (Bytes × ℕ)
  pub from_slice-to_vec :
      (value : Bytes) (secs : ℕ) (data_bytes : Bytes)
      → to_vec value secs ≡ ok data_bytes
      → from_slice data_bytes ≡ ok (value, secs)

-- A calendar of 10 ^ 22 nanoseconds, and an encoding by a mark and the time in front of the value.
add_below : ℕ → ℕ → Option ℕ
add_below now secs =
    if leb (now + secs * second) (10 ^ 22) then some (now + secs * second) else none

add_below_lem :
    (now secs : ℕ) → now + secs * second ≤ 10 ^ 22 → add_below now secs ≡ some (now + secs * second)
unfolding add_below
add_below_lem now secs h = ground arith

unfoldable pub calendar : Chrono
unfolding add_below add_below_lem
calendar = record { max_time = 10 ^ 22; add_seconds = add_below; add_seconds_lem = add_below_lem }

read_marked : Bytes → Result (List (List ℕ)) (Bytes × ℕ)
read_marked (b ∷ secs ∷ value) = if leb b 123 then ok (value, secs) else err []
read_marked _ = err []

read_marked_lem :
    (value : Bytes) (secs : ℕ) (x : Bytes)
    → ◌≡◌ {A = Result (List (List ℕ)) Bytes} (ok (123 ∷ secs ∷ value)) (ok x)
    → read_marked x ≡ ok (value, secs)
unfolding read_marked
read_marked_lem value secs [] h = cc
read_marked_lem value secs (b ∷ []) h = cc
read_marked_lem value secs (b ∷ s ∷ v) h = ground arith

unfoldable pub marked : Json chained
unfolding read_marked read_marked_lem
marked = record {
  to_vec = λ value secs. ok (123 ∷ secs ∷ value);
  from_slice = read_marked;
  from_slice-to_vec = read_marked_lem;
}
