-- ===== src/Tests/Str.antt =====
-- Runs of the methods of `str`.
use yetti.Base.{◌≡◌, refl, some, [], ◌∷◌, nat_eq}
use yetti.Base.Lists.{bytes}
use yetti.Base.Str.{split, trim, parse_u64, max_u64}

split_run : split b',' (bytes "a, b,") ≡ bytes "a" ∷ bytes " b" ∷ [] ∷ []
unfolding split nat_eq
split_run = refl

trim_run : trim (bytes "  a b ") ≡ bytes "a b"
unfolding trim nat_eq
trim_run = refl

parse_u64_run : parse_u64 (bytes "+18446744073709551615") ≡ some max_u64
unfolding parse_u64 nat_eq
parse_u64_run = refl
