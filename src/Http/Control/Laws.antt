-- ===== src/Http/Control/Laws.antt =====
-- What a parsed `Control` satisfies (crates/wasi-http/src/guest/cache.rs).
use yetti.Base.{
  ◌≤◌, ◌≡◌, refl, sym, ◌∙◌, Bool, true, false, not, ◌&&◌, ◌||◌, Option, none, some, List, [], ◌∷◌,
  Text, nat_eq, text_eq, ltb, if◌then◌else◌, arith, inl, inr, Bool-cases,
}
use mathlib.Core.Path.{subst}
use yetti.Base.Lists.{bytes, is_empty, contains}
use yetti.Base.Str.{
  split, trim, to_ascii_lowercase, strip_prefix, starts_with, max_u64, parse_u64-le,
}
use yetti.Base.Exec.{Result, ok, err, ok-injective}
use yetti.Foreign.Anyhow.{Anyhow}
use yetti.Foreign.Http.{Http}
use yetti.Http.Control.{
  Control, default, cache_control, if_none_match, directive, directives, require_etag,
  max_age_directive, check_etag, read_etag, parse_header, try_from, ◌>>=◌,
}

-- What the loop keeps: `no-store` stands alone, and the entity tag is not read yet.
pub record IsConsistent (c : Control) : Type 0 where
  pub alone : (c.no_store && (c.no_cache || ltb 0 c.max_age)) ≡ false
  pub unread : c.etag ≡ []
  pub small : c.max_age ≤ max_u64

default-IsConsistent : IsConsistent default
default-IsConsistent = record { alone = refl; unread = refl; small = omega arith }

not-either : (a b : Bool) → (not (a || b)) ≡ (not a && not b)
not-either true b = refl
not-either false b = refl

-- What comes before a question mark succeeded.
>>=-was-ok {ℓ} :
    {E A B : Type ℓ} (r : Result E A) (next : A → Result E B) {b : B}
    → ok b ≡ (r >>= next)
    → (a : A) × (next a ≡ ok b) × (r ≡ ok a)
>>=-was-ok (ok a) next h = (a, sym h, refl)
>>=-was-ok (err e) next h = cc

guard-eq-ok {ℓ} :
    {E A : Type ℓ} (t : Bool) (e : E) (r : Result E A) {a : A}
    → (if t then err e else r) ≡ ok a
    → (t ≡ false) × (r ≡ ok a)
guard-eq-ok true e r h = cc
guard-eq-ok false e r h = (refl, h)

module _ (ah : Anyhow) where
  max_age_directive-IsConsistent :
      (c c' : Control) (o : Option Text)
      → IsConsistent c
      → max_age_directive ah c o ≡ ok c'
      → IsConsistent c'
  unfolding max_age_directive
  max_age_directive-IsConsistent c c' none h e = ground arith
  max_age_directive-IsConsistent c c' (some value) h e =
      ground (arith, parse_u64-le (trim value) c'.max_age)

  directive-IsConsistent :
      (c c' : Control) (d : Text) → IsConsistent c → directive ah c d ≡ ok c' → IsConsistent c'
  unfolding directive
  directive-IsConsistent c c' d h e =
      ground (arith, max_age_directive-IsConsistent c c' (strip_prefix (bytes "max-age=") d) h)

  directives-IsConsistent :
      (c c' : Control) (ds : List Text)
      → IsConsistent c
      → directives ah c ds ≡ ok c'
      → IsConsistent c'
  unfolding directives
  directives-IsConsistent c c' [] h e = ground arith
  directives-IsConsistent c c' (raw ∷ rest) h e =
      let (d, q, p) = >>=-was-ok (directive ah c (to_ascii_lowercase (trim raw))) _ (sym e) in
      directives-IsConsistent d c' rest (directive-IsConsistent c d _ h p) q

  module _ (http : Http ah) where
    -- The entity tag that goes with a control: none if the response is not to be stored or the cache
    -- is not to be read, and otherwise the text of `If-None-Match`, a single strong tag.
    abbrev pub TagFits : Bool → Option http.HeaderValue → Control → Type 0
    TagFits true found c = c.etag ≡ []
    TagFits false found c =
        (is_empty c.etag ≡ false)
        × (contains c.etag b',' ≡ false)
        × (starts_with (bytes "W/") c.etag ≡ false)
        × (v : http.HeaderValue) × (found ≡ some v)
        × (http.to_str v ≡ ok c.etag)

    check_etag-eq-ok :
        (c c' : Control) (t : Text)
        → check_etag ah http c t ≡ ok c'
        → (contains t b',' ≡ false)
          × (starts_with (bytes "W/") t ≡ false)
          × (c' ≡ record c { etag = t })
    unfolding check_etag
    check_etag-eq-ok c c' t e = ground arith

    -- What reading the tag adds to a control.
    abbrev Tagged : Option http.HeaderValue → Control → Control → Type 0
    Tagged found c c' = TagFits false found c' × (c' ≡ record c { etag = c'.etag })

    read_etag-Tagged :
        (c c' : Control) (found : Option http.HeaderValue)
        → read_etag ah http c found ≡ ok c'
        → Tagged found c c'
    unfolding read_etag
    read_etag-Tagged c c' none e = cc
    read_etag-Tagged c c' (some v) e =
        let (p, rest) = guard-eq-ok (http.is_empty_value v) _ _ e in
        let (t, checked, q) = >>=-was-ok (http.to_str v) _ (sym rest) in
        let (one, strong, made) = check_etag-eq-ok c c' t checked in
        let filled : is_empty t ≡ false = sym (http.is_empty_value_lem v t q) ∙ p in
        rw made ((filled, one, strong, v, refl, q), refl)

    -- What a control parsed from present headers satisfies.
    pub record IsParsed (found : Option http.HeaderValue) (c : Control) : Type 0 where
      pub alone : (c.no_store && (c.no_cache || ltb 0 c.max_age)) ≡ false
      pub small : c.max_age ≤ max_u64
      pub tag : TagFits (c.no_store || c.no_cache) found c

    kept-IsParsed :
        (c : Control) (found : Option http.HeaderValue)
        → IsConsistent c
        → (c.no_store || c.no_cache) ≡ true
        → IsParsed found c
    kept-IsParsed c found h t = record { alone = h.alone; small = h.small; tag = rw t h.unread }

    require_etag-IsParsed :
        (c c' : Control) (found : Option http.HeaderValue)
        → IsConsistent c
        → require_etag ah http c found ≡ ok c'
        → IsParsed found c'
    unfolding require_etag
    require_etag-IsParsed c c' found h e = elim (Bool-cases (c.no_store || c.no_cache)) [
      | inl t ↦
          let same : c ≡ c' = ok-injective c c' (rw (← not-either c.no_store c.no_cache, t) at e) in
          subst (IsParsed found) same (kept-IsParsed c found h t)
      | inr t ↦
          let (fits, made) =
            read_etag-Tagged c c' found (rw (← not-either c.no_store c.no_cache, t) at e) in
          let good : IsParsed found (record c { etag = c'.etag }) = record {
            alone = h.alone;
            small = h.small;
            tag = rw t fits;
          } in
          subst (IsParsed found) (sym made) good
    ]

    -- If `Cache-Control` is present and parsing succeeds, `no-store` excludes `no-cache` and a
    -- positive age, the age fits 64 bits, and the entity tag is empty if either of the two
    -- directives was given and otherwise the single, strong, non-empty text of `If-None-Match`.
    pub try_from-IsParsed :
        (headers : http.HeaderMap) (value : http.HeaderValue) (c : Control)
        → http.get headers cache_control ≡ some value
        → try_from ah http headers ≡ ok c
        → IsParsed (http.get headers if_none_match) c
    unfolding try_from parse_header
    try_from-IsParsed headers value c h e =
        let parsed : parse_header ah http (http.get headers if_none_match) value ≡ ok c =
          rw (h, try_from) at e in
        let (_, rest) = guard-eq-ok (http.is_empty_value value) _ _ parsed in
        let (header, looped, _) = >>=-was-ok (http.to_str value) _ (sym rest) in
        let (d, q, p) = >>=-was-ok (directives ah default (split b',' header)) _ (sym looped) in
        require_etag-IsParsed d c _ (directives-IsConsistent default d _ default-IsConsistent p) q
