-- ===== src/Base/Utf8.antt =====
-- `std::str::from_utf8`: which bytes are UTF-8.
use yetti.Base.{
  ℕ, zero, suc, Bool, true, false, ◌&&◌, Option, none, some, [], ◌∷◌, Bytes, leb, if◌then◌else◌,
}

-- What may follow a first byte: the number of further bytes, and the range of the next one.
abbrev Follow : Type 0
Follow = ℕ × ℕ × ℕ

abbrev between : ℕ → ℕ → ℕ → Bool
between low high b = leb low b && leb b high

unfoldable pub first : ℕ → Option Follow
first b =
    if between 0x00 0x7F b
    then some (0, 0x80, 0xBF)
    else if between 0xC2 0xDF b
    then some (1, 0x80, 0xBF)
    else if between 0xE0 0xE0 b
    then some (2, 0xA0, 0xBF)
    else if between 0xE1 0xEC b
    then some (2, 0x80, 0xBF)
    else if between 0xED 0xED b
    then some (2, 0x80, 0x9F)
    else if between 0xEE 0xEF b
    then some (2, 0x80, 0xBF)
    else if between 0xF0 0xF0 b
    then some (3, 0x90, 0xBF)
    else if between 0xF1 0xF3 b
    then some (3, 0x80, 0xBF)
    else if between 0xF4 0xF4 b
    then some (3, 0x80, 0x8F)
    else none

-- The state is what must still follow.
utf8_from : ℕ → ℕ → ℕ → Bytes → Bool
utf8_from zero low high [] = true
utf8_from (suc n) low high [] = false
utf8_from zero low high (b ∷ bs) = elim (first b) [
  | none ↦ false
  | some f ↦ utf8_from f.0 f.1 f.2 bs
]
utf8_from (suc n) low high (b ∷ bs) = between low high b && utf8_from n 0x80 0xBF bs

unfoldable pub is_utf8 : Bytes → Bool
unfolding utf8_from
is_utf8 x = utf8_from 0 0x80 0xBF x
