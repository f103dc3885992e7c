-- ===== src/Base/Decimal.antt =====
-- `to_string` of an unsigned number, and that `parse` reads it back.
use yetti.Base.{
  ℕ, zero, suc, ◌+◌, ◌/◌, ◌%◌, ◌≤◌, ◌<◌, ◌≡◌, some, [], ◌∷◌, Text, arith, Bool-cases, inl, inr, ◌∙◌,
  ltb, nat_eq, if◌then◌else◌,
}
use yetti.Base.Str.{parse_u64, scan, max_u64}

-- The digits of `n` in front of `acc`. The fuel is spent one at a time, by less than the number
-- shrinks.
unfoldable pub digits : ℕ → ℕ → Text → Text
digits zero n acc = acc
digits (suc fuel) n acc =
    let rest = digits fuel (n / 10) ((b'0' + n % 10) ∷ acc) in
    if ltb n 10 then (b'0' + n) ∷ acc else rest

unfoldable pub to_string : ℕ → Text
unfolding digits
to_string n = digits (suc n) n []

scan-digits :
    (fuel n : ℕ) (acc : Text) → n < fuel → n ≤ max_u64 → scan (digits fuel n acc) 0 ≡ scan acc n
unfolding digits scan
scan-digits zero n acc h small = absurd (omega arith)
scan-digits (suc fuel) n acc h small =
    ground (arith, scan-digits fuel (n / 10) ((b'0' + n % 10) ∷ acc))

-- The first digit is one.
digits-digit :
    (fuel n : ℕ) (acc : Text)
    → n < fuel
    → (c : ℕ) × (s : Text) × (digits fuel n acc ≡ c ∷ s) × (b'0' ≤ c)
unfolding digits
digits-digit zero n acc h = absurd (omega arith)
digits-digit (suc fuel) n acc h = elim (Bool-cases (ltb n 10)) [
  | inl t ↦ (b'0' + n, acc, rw t, omega arith)
  | inr t ↦
      let (c, s, e, low) = digits-digit fuel (n / 10) ((b'0' + n % 10) ∷ acc) (ground arith) in
      (c, s, rw t e, low)
]

parse_u64-digit : (t : Text) (c : ℕ) (s : Text) → t ≡ c ∷ s → b'0' ≤ c → parse_u64 t ≡ scan t 0
unfolding parse_u64 nat_eq
parse_u64-digit t c s e low = rw e (ground arith)

-- A number that fits 64 bits is read back from its text.
pub parse_u64-to_string : (n : ℕ) → n ≤ max_u64 → parse_u64 (to_string n) ≡ some n
unfolding to_string scan
parse_u64-to_string n h =
    let (c, s, e, low) = digits-digit (suc n) n [] (omega arith) in
    let read = scan-digits (suc n) n [] (omega arith) h in parse_u64-digit _ c s e low ∙ read
