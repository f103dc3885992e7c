-- ===== src/Base/Bits.antt =====
-- `i64::to_be_bytes` and `i64::from_be_bytes`: a w-bit integer is its bit pattern, a number below
-- 2 ^ w; two's complement addition is addition of patterns modulo 2 ^ w.
use native.Mathlib.Nat.{pow-suc}
use yetti.Base.{ℕ, zero, suc, ◌+◌, ◌*◌, ◌/◌, ◌%◌, ◌^◌, ◌<◌, ◌≡◌, refl, [], ◌∷◌, ◌++◌, arith, Bytes}

unfoldable pub from_be_bytes : ℕ → Bytes → ℕ
from_be_bytes acc [] = acc
from_be_bytes acc (b ∷ bs) = from_be_bytes (acc * 256 + b) bs

-- The last `k` bytes of `n`, the most significant first.
unfoldable pub to_be_bytes : ℕ → ℕ → Bytes
to_be_bytes zero n = []
to_be_bytes (suc k) n = to_be_bytes k (n / 256) ++ (n % 256) ∷ []

from_be_bytes-append :
    (acc : ℕ) (bs : Bytes) (b : ℕ)
    → from_be_bytes acc (bs ++ b ∷ []) ≡ from_be_bytes acc bs * 256 + b
unfolding from_be_bytes
from_be_bytes-append acc [] b = refl
from_be_bytes-append acc (c ∷ bs) b = from_be_bytes-append (acc * 256 + c) bs b

-- Reading the bytes of a number that fits gives the number back.
pub from_be_bytes-to_be_bytes : (k n : ℕ) → n < 256 ^ k → from_be_bytes 0 (to_be_bytes k n) ≡ n
unfolding to_be_bytes
from_be_bytes-to_be_bytes zero n h = unfold from_be_bytes in omega arith
from_be_bytes-to_be_bytes (suc k) n h =
    rw from_be_bytes-append
      (omega (arith, from_be_bytes-to_be_bytes k (n / 256) (omega (arith, h, pow-suc 256 k))))
