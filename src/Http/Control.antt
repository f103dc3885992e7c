-- ===== src/Http/Control.antt =====
-- `Control` of crates/wasi-http/src/guest/cache.rs: the parser of the headers `Cache-Control` and
-- `If-None-Match`.
pub mod Laws
use yetti.Base.{
  ℕ, zero, Bool, true, false, not, ◌&&◌, ◌||◌, Option, none, some, List, [], ◌∷◌, Text, nat_eq,
  text_eq, ◌==◌, ltb, if◌then◌else◌,
}
use yetti.Base.Lists.{bytes, is_empty, contains}
use yetti.Base.Str.{split, trim, to_ascii_lowercase, strip_prefix, starts_with, parse_u64}
use yetti.Base.Exec.{Result, ok, err}
use yetti.Foreign.Anyhow.{Anyhow}
use yetti.Foreign.Http.{Http}

pub record Control : Type 0 where
  pub no_cache : Bool
  pub no_store : Bool
  pub max_age : ℕ
  pub etag : Text

abbrev pub default : Control
default = record { no_cache = false; no_store = false; max_age = 0; etag = [] }

abbrev pub cache_control : Text
cache_control = bytes "cache-control"

abbrev pub if_none_match : Text
if_none_match = bytes "if-none-match"

infixl 10 ◌>>=◌ ◌>>◌
abbrev pub ◌>>=◌ {ℓ} : {E A B : Type ℓ} → Result E A → (A → Result E B) → Result E B
ok a >>= f = f a
err e >>= f = err e

abbrev pub ◌>>◌ {ℓ} : {E A B : Type ℓ} → Result E A → Result E B → Result E B
m >> n = m >>= λ _. n

module _ (ah : Anyhow) where
  abbrev bail : Text → Result ah.Error Control
  bail message = err (ah.msg message)

  max_age_directive : Control → Option Text → Result ah.Error Control
  max_age_directive control none = ok control
  max_age_directive control (some value) =
      if control.no_store
      then bail (bytes "`max-age` cannot be combined with `no-store`")
      else elim (parse_u64 (trim value)) [
        | none ↦ bail (bytes "`max-age` directive is malformed")
        | some max_age ↦ ok (record control { max_age = max_age })
      ]

  -- The body of the loop, at a directive that is trimmed and in lower case.
  unfoldable pub directive : Control → Text → Result ah.Error Control
  unfolding max_age_directive
  directive control d =
      if is_empty d
      then ok control
      else if d == bytes "no-store"
      then (if control.no_cache || ltb 0 control.max_age
          then bail (bytes "`no-store` cannot be combined with other cache directives")
          else ok (record control { no_store = true }))
      else if d == bytes "no-cache"
      then (if control.no_store
          then bail (bytes "`no-cache` cannot be combined with `no-store`")
          else ok (record control { no_cache = true }))
      else max_age_directive control (strip_prefix (bytes "max-age=") d)

  unfoldable pub directives : Control → List Text → Result ah.Error Control
  directives control [] = ok control
  directives control (raw ∷ rest) = do
    next ← directive control (to_ascii_lowercase (trim raw))
    directives next rest

  module _ (http : Http ah) where
    check_etag : Control → Text → Result ah.Error Control
    check_etag control etag_str =
        if contains etag_str b','
        then bail (bytes "multiple `etag` values in `If-None-Match` header are not supported")
        else if starts_with (bytes "W/") etag_str
        then bail (bytes "weak `etag` values in `If-None-Match` header are not supported")
        else ok (record control { etag = etag_str })

    read_etag : Control → Option http.HeaderValue → Result ah.Error Control
    read_etag control none =
        bail (
          bytes "`If-None-Match` header required when using `Cache-Control: max-age` or `no-cache`")
    read_etag control (some etag) =
        if http.is_empty_value etag
        then bail (bytes "`If-None-Match` header is empty")
        else do etag_str ← http.to_str etag; check_etag control etag_str

    -- The part behind the loop.
    unfoldable pub require_etag : Control → Option http.HeaderValue → Result ah.Error Control
    unfolding read_etag check_etag
    require_etag control found =
        if not control.no_store && not control.no_cache then read_etag control found else ok control

    parse_header : Option http.HeaderValue → http.HeaderValue → Result ah.Error Control
    parse_header etag value =
        if http.is_empty_value value then bail (bytes "Cache-Control header is empty") else do
          header ← http.to_str value
          control ← directives default (split b',' header)
          require_etag control etag

    -- `Control::try_from(&HeaderMap)`
    unfoldable pub try_from : http.HeaderMap → Result ah.Error Control
    unfolding parse_header
    try_from headers = elim (http.get headers cache_control) [
      | none ↦ ok default
      | some value ↦ parse_header (http.get headers if_none_match) value
    ]
