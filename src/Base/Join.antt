-- ===== src/Base/Join.antt =====
-- `join` of slices of strings with a separator of one byte, `split_once`, and `split` after `join`.
use yetti.Base.{
  ℕ, ◌≡◌, refl, false, Option, none, some, List, [], ◌∷◌, ◌++◌, arith, Text, nat_eq, ◌==◌,
  if◌then◌else◌,
}
use yetti.Base.Lists.{contains, All}
use yetti.Base.Str.{split}

unfoldable pub join : ℕ → List Text → Text
join sep [] = []
join sep (p ∷ []) = p
join sep (p ∷ q ∷ ps) = p ++ sep ∷ join sep (q ∷ ps)

abbrev onto_first : ℕ → Option (Text × Text) → Option (Text × Text)
onto_first c none = none
onto_first c (some (a, b)) = some (c ∷ a, b)

-- The text before and behind the first separator.
unfoldable pub split_once : ℕ → Text → Option (Text × Text)
split_once sep [] = none
split_once sep (c ∷ s) =
    let rest = onto_first c (split_once sep s) in if c == sep then some ([], s) else rest

pub split_self : (sep : ℕ) (p : Text) → contains p sep ≡ false → split sep p ≡ p ∷ []
unfolding split
split_self sep [] h = refl
split_self sep (c ∷ p) h = ground (arith, split_self sep p)

pub split-append :
    (sep : ℕ) (p s : Text) → contains p sep ≡ false → split sep (p ++ sep ∷ s) ≡ p ∷ split sep s
unfolding split nat_eq
split-append sep [] s h = ground arith
split-append sep (c ∷ p) s h = ground (arith, split-append sep p s)

-- Pieces without the separator are read back.
pub split-join :
    (sep : ℕ) (p : Text) (ps : List Text)
    → All (λ q. contains q sep ≡ false) (p ∷ ps)
    → split sep (join sep (p ∷ ps)) ≡ p ∷ ps
unfolding join
split-join sep p [] (h, all) = split_self sep p h
split-join sep p (q ∷ ps) (h, all) =
    rw (split-append sep p (join sep (q ∷ ps)) h) (rw (split-join sep q ps all))

pub split_once-append :
    (sep : ℕ) (p s : Text) → contains p sep ≡ false → split_once sep (p ++ sep ∷ s) ≡ some (p, s)
unfolding split_once nat_eq
split_once-append sep [] s h = ground arith
split_once-append sep (c ∷ p) s h = ground (arith, split_once-append sep p s)
