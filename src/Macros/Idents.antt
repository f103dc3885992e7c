-- ===== src/Macros/Idents.antt =====
-- The names that the macros derive from paths, routes and topics: `field_ident` and `wasi_ident` of
-- crates/runtime-macro/src/expand.rs and `handler_name` of crates/guest-macro/src/guest.rs. Names are
-- ASCII, and a path's segments have no arguments.
use yetti.Base.{
  ℕ, zero, suc, ◌-◌, Bool, true, false, ◌&&◌, ◌||◌, Option, none, some, List, [], ◌∷◌, ◌++◌, Text,
  nat_eq, text_eq, ◌==◌, leb, if◌then◌else◌,
}
use yetti.Base.Lists.{bytes, length, is_empty}
use yetti.Base.Str.{lower, to_ascii_lowercase, starts_with}

-- `s.replace(pattern, with)` for a pattern that is not empty; the number is that of the bytes of a
-- match that are still to be passed over.
unfoldable pub replace_from : Text → Text → ℕ → Text → Text
replace_from pattern with n [] = []
replace_from pattern with (suc n) (c ∷ s) = replace_from pattern with n s
replace_from pattern with zero (c ∷ s) = elim (starts_with pattern (c ∷ s)) [
  | true ↦ with ++ replace_from pattern with (length pattern - 1) s
  | false ↦ c ∷ replace_from pattern with zero s
]

unfoldable pub replace : Text → Text → Text → Text
unfolding replace_from starts_with
replace pattern with s = replace_from pattern with 0 s

-- `syn::Path`
pub record SynPath : Type 0 where
  pub leading_colon : Bool
  pub segments : List Text

abbrev pub is_uppercase : ℕ → Bool
is_uppercase c = leb b'A' c && leb c b'Z'

-- the loop that makes snake case, with the field name so far
unfoldable pub snake_case : Text → Text → Text
unfolding lower
snake_case field_str [] = field_str
snake_case field_str (c ∷ s) =
    snake_case
      (if is_uppercase c
        then (if is_empty field_str then [] else field_str ++ b'_' ∷ []) ++ lower c ∷ []
        else field_str ++ c ∷ [])
      s

abbrev pub last : List Text → Option Text
last [] = none
last (t ∷ []) = some t
last (t ∷ u ∷ ts) = last (u ∷ ts)

abbrev field_of : Option Text → Text
unfolding snake_case
field_of none = bytes "field"
field_of (some ident) = snake_case [] ident

unfoldable pub field_ident : SynPath → Text
unfolding field_of
field_ident path = field_of (last path.segments)

abbrev wasi_of : Option Text → Text
unfolding replace to_ascii_lowercase
wasi_of none = bytes "wasi"
wasi_of (some ident) = to_ascii_lowercase (replace (bytes "Wasi") (bytes "qwasr_wasi_") ident)

unfoldable pub wasi_ident : SynPath → Text
unfolding wasi_of
wasi_ident path = wasi_of (last path.segments)

-- `trim_start_matches('/')`
unfoldable pub trim_slashes : Text → Text
trim_slashes [] = []
trim_slashes (c ∷ s) = let rest = trim_slashes s in if c == b'/' then rest else c ∷ s

abbrev pub underscored : ℕ → ℕ
underscored c = if c == b'/' || c == b'-' || c == b'.' then b'_' else c

abbrev pub is_brace : ℕ → Bool
is_brace c = c == b'{' || c == b'}'

-- the two calls of `replace`, and `to_lowercase`
unfoldable pub cleaned : Text → Text
unfolding lower
cleaned [] = []
cleaned (c ∷ s) =
    let rest = cleaned s in if is_brace (underscored c) then rest else lower (underscored c) ∷ rest

unfoldable pub handler_name : Text → Text
unfolding trim_slashes cleaned
handler_name path = cleaned (trim_slashes path)
