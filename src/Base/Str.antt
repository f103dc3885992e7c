-- ===== src/Base/Str.antt =====
-- The methods of `str` that the program uses, on ASCII: `split`, `trim`, `to_ascii_lowercase`,
-- `strip_prefix`, `starts_with`, `contains` and `parse::<u64>`.
use yetti.Base.{
  ℕ, ◌+◌, ◌-◌, ◌*◌, ◌^◌, ◌≤◌, ◌≡◌, Bool, true, false, ◌&&◌, ◌||◌, Option, none, some, List, [], ◌∷◌,
  arith, Text, nat_eq, text_eq, ◌==◌, leb, if◌then◌else◌,
}

-- One more byte in front of the first piece.
abbrev onto_first : ℕ → List Text → List Text
onto_first c [] = (c ∷ []) ∷ []
onto_first c (p ∷ ps) = (c ∷ p) ∷ ps

unfoldable pub split : ℕ → Text → List Text
split sep [] = [] ∷ []
split sep (c ∷ s) = let rest = split sep s in if c == sep then [] ∷ rest else onto_first c rest

unfoldable pub is_whitespace : ℕ → Bool
is_whitespace c = (leb 9 c && leb c 13) || c == 32

unfoldable pub trim_start : Text → Text
trim_start [] = []
trim_start (c ∷ s) = let rest = trim_start s in if is_whitespace c then rest else c ∷ s

unfoldable pub trim_end : Text → Text
trim_end [] = []
trim_end (c ∷ s) = elim (trim_end s) [
  | [] ↦ if is_whitespace c then [] else c ∷ []
  | d ∷ r ↦ c ∷ d ∷ r
]

unfoldable pub trim : Text → Text
unfolding trim_start trim_end is_whitespace
trim s = trim_end (trim_start s)

unfoldable pub lower : ℕ → ℕ
lower c = if leb b'A' c && leb c b'Z' then c + 32 else c

unfoldable pub to_ascii_lowercase : Text → Text
unfolding lower
to_ascii_lowercase [] = []
to_ascii_lowercase (c ∷ s) = lower c ∷ to_ascii_lowercase s

unfoldable pub strip_prefix : Text → Text → Option Text
strip_prefix [] s = some s
strip_prefix (p ∷ ps) [] = none
strip_prefix (p ∷ ps) (c ∷ s) = if p == c then strip_prefix ps s else none

unfoldable pub starts_with : Text → Text → Bool
starts_with [] s = true
starts_with (p ∷ ps) [] = false
starts_with (p ∷ ps) (c ∷ s) = p == c && starts_with ps s

-- `s.contains(pattern)`
unfoldable pub contains_str : Text → Text → Bool
unfolding starts_with
contains_str pattern [] = starts_with pattern []
contains_str pattern (c ∷ s) = starts_with pattern (c ∷ s) || contains_str pattern s

abbrev pub max_u64 : ℕ
max_u64 = 2 ^ 64 - 1

-- The digits of a number, refused on a byte that is none and on overflow.
unfoldable pub scan : Text → ℕ → Option ℕ
scan [] n = some n
scan (c ∷ s) n =
    let rest = scan s (n * 10 + (c - b'0')) in
    if leb b'0' c && leb c b'9' && leb (n * 10 + (c - b'0')) max_u64 then rest else none

abbrev pub digits_of : Text → Option ℕ
digits_of [] = none
digits_of (c ∷ s) = scan (c ∷ s) 0

-- `parse::<u64>()`: a plus sign may stand before the digits
unfoldable pub parse_u64 : Text → Option ℕ
unfolding scan
parse_u64 [] = none
parse_u64 (c ∷ s) = if c == b'+' then digits_of s else digits_of (c ∷ s)

scan-le : (s : Text) (n r : ℕ) → n ≤ max_u64 → scan s n ≡ some r → r ≤ max_u64
unfolding scan
scan-le [] n r h e = ground arith
scan-le (c ∷ s) n r h e = ground (arith, scan-le s (n * 10 + (c - b'0')) r)

-- What parses fits 64 bits.
pub parse_u64-le : (s : Text) (r : ℕ) → parse_u64 s ≡ some r → r ≤ max_u64
unfolding parse_u64
parse_u64-le [] r e = cc
parse_u64-le (c ∷ []) r e = ground (arith, scan-le (c ∷ []) 0 r)
parse_u64-le (c ∷ d ∷ s) r e = ground (arith, scan-le (c ∷ d ∷ s) 0 r, scan-le (d ∷ s) 0 r)
