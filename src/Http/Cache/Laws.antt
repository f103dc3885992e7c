-- ===== src/Http/Cache/Laws.antt =====
-- What a response stored in the cache comes back as (crates/wasi-http/src/guest/cache.rs).
use mathlib.Core.List.{foldl}
use yetti.Base.{
  ℕ, ◌+◌, ◌*◌, ◌/◌, ◌≤◌, ◌≡◌, refl, sym, ap, ◌∙◌, Bool, true, false, ◌||◌, ◌&&◌, leb, Option, none,
  some, List, [], ◌∷◌, map, Text, Bytes, nat_eq, text_eq, ◌==◌, if◌then◌else◌, arith, Bool-cases,
  inl, inr,
}
use yetti.Base.Lists.{is_empty, All}
use yetti.Base.Exec.{Result, ok, err, ok-injective, Result-cases, map_err-eq-ok, ◌>>=◌, ◌>>◌}
use yetti.Foreign.Http.{Http, Response, Request}
use yetti.Foreign.Envelope.{second}
use yetti.KeyValue.Backend.{IsLawful}
use yetti.KeyValue.Cache.{Env, Failure, error, Guest}
use yetti.KeyValue
use yetti.KeyValue.Cache.Laws
use yetti.Http.Control.{cache_control, try_from}
use yetti.Http.Cache.{
  Cache, Rkyv, text_or_default, finish, to_serialized, serialize, build_headers, add_header,
  from_serialized, deserialize, maybe_from, found, get, put,
}

-- The end of the life of an entry created at a time, which the envelope holds in whole seconds.
abbrev pub expiry : Cache → ℕ → ℕ
expiry c created = (created + c.control.max_age * second) / second * second

eq_refl : (t : Text) → (t == t) ≡ true
eq_refl t = ground arith

ok-some-injective :
    {E A : Type 0} (a b : A) → ◌≡◌ {A = Result E (Option A)} (ok (some a)) (ok (some b)) → a ≡ b
ok-some-injective a b h = cc

err-not-ok : {E A : Type 0} {P : Type 0} (e : E) (a : A) → ◌≡◌ {A = Result E A} (err e) (ok a) → P
err-not-ok e a h = cc

module _ (env : Env) (http : Http env.ah) (rkyv : Rkyv env.ah.Error) where
  open env use {ah}

  -- Every header value is visible ASCII.
  abbrev pub IsVisible : List (Text × http.HeaderValue) → Type 0
  IsVisible = All (λ p. (t : Text) × (http.to_str p.1 ≡ ok t))

  build_headers_lem :
      (m : http.HeaderMap) (hs : List (Text × http.HeaderValue))
      → IsVisible hs
      → build_headers env http rkyv
          (ok m)
          (map (λ (k, v). (k, text_or_default env http rkyv (http.to_str v))) hs)
        ≡ ok (foldl (λ acc p. http.append acc p.0 p.1) m hs)
  unfolding build_headers add_header
  build_headers_lem m [] _ = refl
  build_headers_lem m ((k, v) ∷ hs) ((t, e), rest) =
      rw e (rw (http.from_str-to_str t v e) (build_headers_lem (http.append m k v) hs rest))

  -- A response whose header values are visible ASCII comes back from the cache as it was: status,
  -- headers and body.
  pub deserialize-serialize :
      (response : Response http) (x : Bytes)
      → IsVisible (http.iter response.headers)
      → serialize env http rkyv response ≡ ok x
      → deserialize env http rkyv x ≡ ok response
  unfolding serialize deserialize from_serialized to_serialized finish
  deserialize-serialize response x visible e =
      let stored = map_err-eq-ok _ (rkyv.to_bytes (to_serialized env http rkyv response)) e in
      rw (rkyv.from_bytes-to_bytes _ x stored, deserialize)
        (rw (http.from_u16-as_u16, build_headers_lem http.empty _ visible, http.append-iter))

  -- The control of a request's cache is the one parsed from its headers.
  pub maybe_from-eq-ok :
      (request : Request http) (value : http.HeaderValue) (c : Cache)
      → http.get request.headers cache_control ≡ some value
      → maybe_from env http rkyv request ≡ ok (some c)
      → try_from env.ah http request.headers ≡ ok c.control
  unfolding maybe_from
  maybe_from-eq-ok request value c present e =
      let parsed = rw (present, maybe_from) at e in
      elim (Result-cases (try_from env.ah http request.headers)) [
        | inl (control, t) ↦
            let same = ok-some-injective _ c (rw (t, maybe_from) at parsed) in
            rw t (ap (λ cache. ok cache.control) same)
        | inr (failed, t) ↦ err-not-ok _ (some c) (rw (t, maybe_from) at parsed)
      ]

  -- A cache with `no-cache` or `no-store` is not looked up.
  pub get_skipped :
      (c : Cache) (now : ℕ) (s : env.store.State)
      → (c.control.no_store || c.control.no_cache) ≡ true
      → get env http rkyv c now s ≡ (ok none, s)
  unfolding get
  get_skipped c now s h = ground arith

  -- A cache with `no-store`, with no tag or with no age to live stores nothing.
  pub put_unstored :
      (c : Cache) (response : Response http) (created checked : ℕ) (s : env.store.State)
      → (c.control.no_store || (is_empty c.control.etag || c.control.max_age == 0)) ≡ true
      → put env http rkyv c response created checked s ≡ (ok tt, s)
  unfolding put
  put_unstored c response created checked s h = rw h

  module _ (L : IsLawful env.store) where
    -- The tag can be looked up.
    abbrev pub IsReadable : Cache → Type 0
    IsReadable c =
        (c.control.no_cache ≡ false)
        × (c.control.no_store ≡ false)
        × (is_empty c.control.etag ≡ false)

    abbrev replied :
        Result ah.Error (Response http) → Result (Failure ah.Error) (Option (Response http))
    replied (err e) = err (error e)
    replied (ok r) = ok (some r)

    -- What the bytes of an entry are returned as.
    abbrev pub reply : Option Bytes → Result (Failure ah.Error) (Option (Response http))
    reply none = ok none
    reply (some x) = replied (deserialize env http rkyv x)

    -- The live entry of a cache's tag in its bucket.
    abbrev pub entry : Cache → ℕ → env.store.State → Option Bytes
    entry c now s = KeyValue.Cache.Laws.live env L now (L.view s (L.named c.bucket) c.control.etag)

    found_lem : (o : Option Bytes) (s : env.store.State) → found env http rkyv o s ≡ (reply o, s)
    unfolding found
    found_lem none s = refl
    found_lem (some x) s = elim (Result-cases (deserialize env http rkyv x)) [
      | inl (r, e) ↦ rw (e, found, reply)
      | inr (r, e) ↦ rw (e, found, reply)
    ]

    -- A readable cache answers with the live entry of its tag.
    pub get_lem :
        (c : Cache) (now : ℕ) (s : env.store.State)
        → IsReadable c
        → (get env http rkyv c now s).0 ≡ reply (entry c now s)
    unfolding get KeyValue.Cache.open_cache
    get_lem c now s (p, q, t) =
        rw (p, q, t, L.open_ok, KeyValue.Cache.Laws.get_lem env L, found_lem, L.view-open)

    -- A lookup changes nothing that a read at its time or later can tell.
    pub live-get :
        (c : Cache) (now later : ℕ) (s : env.store.State) (b : env.store.Bucket) (j : Text)
        → now ≤ later
        → KeyValue.Cache.Laws.live env L later (L.view (get env http rkyv c now s).1 b j)
          ≡ KeyValue.Cache.Laws.live env L later (L.view s b j)
    unfolding get KeyValue.Cache.open_cache
    live-get c now later s b j h =
        elim (Bool-cases (c.control.no_cache || (c.control.no_store || is_empty c.control.etag))) [
          | inl t ↦ rw (t, get)
          | inr t ↦ rw (
            t,
            get,
            L.open_ok,
            KeyValue.Cache.Laws.get_lem env L,
            found_lem,
            KeyValue.Cache.Laws.live-get env L,
            L.view-open,
          )
        ]

    module _ (c : Cache) (response : Response http) (x sealed : Bytes) (created checked : ℕ)
        (stored : (c.control.no_store || (is_empty c.control.etag || c.control.max_age == 0))
          ≡ false)
        (visible : IsVisible (http.iter response.headers))
        (serialized : serialize env http rkyv response ≡ ok x)
        (in_range : created + c.control.max_age * second ≤ env.chrono.max_time)
        (encoded : env.json.to_vec x ((created + c.control.max_age * second) / second) ≡ ok sealed)
        (s : env.store.State) where
      abbrev opened : env.store.State
      opened = (env.store.open_bucket c.bucket s).1

      abbrev stored_state : env.store.State
      stored_state =
          (KeyValue.Cache.set env (L.named c.bucket) c.control.etag x (some c.control.max_age)
            created checked opened).1

      -- What `set` answers, and what a later read finds.
      set_lem :
          (b : env.store.Bucket) (k : Text) (now : ℕ)
          → checked ≤ now
          → ((KeyValue.Cache.set env
                (L.named c.bucket)
                c.control.etag
                x
                (some c.control.max_age)
                created
                checked
                opened).0
              ≡ ok (entry c checked opened))
            × (KeyValue.Cache.Laws.live env L now (L.view stored_state b k) ≡ (
                if L.alias (L.named c.bucket) b && c.control.etag == k
                then (if leb (expiry c created) now then none else some x)
                else KeyValue.Cache.Laws.live env L now (L.view s b k)))
      set_lem b k now h =
          let (answered, read) =
            KeyValue.Cache.Laws.get-set_ttl env L (L.named c.bucket) c.control.etag x sealed
              c.control.max_age created checked opened in_range encoded b k now h in
          let found : KeyValue.Cache.Laws.live env L now (L.view stored_state b k) ≡ _ =
            ok-injective _ _
              (sym (KeyValue.Cache.Laws.get_lem env L b k now stored_state) ∙ read) in
          (answered, found ∙ rw L.view-open)

      put_lem : put env http rkyv c response created checked s ≡ (ok tt, stored_state)
      unfolding put KeyValue.Cache.open_cache
      put_lem =
          let (answered, _) = set_lem (L.named c.bucket) c.control.etag checked (omega arith) in
          rw (stored, put, L.open_ok, serialized, ◌>>=◌, ◌>>◌, answered)

      reply-if :
          (t : Bool) → reply (if t then none else some x) ≡ ok (if t then none else some response)
      reply-if true = refl
      reply-if false = rw (deserialize-serialize response x visible serialized, reply)

      -- Storing a response succeeds, and until its expiry each lookup of its tag in its bucket
      -- returns the response as it was: status, headers and body.
      pub get-put :
          (d : Cache) (now : ℕ)
          → IsReadable d
          → d.bucket ≡ c.bucket
          → d.control.etag ≡ c.control.etag
          → checked ≤ now
          → ((put env http rkyv c response created checked s).0 ≡ ok tt)
            × ((get env http rkyv d now (put env http rkyv c response created checked s).1).0
                ≡ ok (if leb (expiry c created) now then none else some response))
      get-put d now readable same_bucket same_tag h =
          let (_, read) = set_lem (L.named d.bucket) d.control.etag now h in
          let held : entry d now stored_state
              ≡ (if leb (expiry c created) now then none else some x) =
            read ∙ rw (same_bucket, same_tag, L.alias_refl, eq_refl c.control.etag) in
          (
            rw put_lem,
            rw (put_lem, get_lem d now _ readable)
                (ap reply held ∙ reply-if (leb (expiry c created) now)),
          )
