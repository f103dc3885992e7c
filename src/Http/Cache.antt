-- ===== src/Http/Cache.antt =====
-- `Cache` of crates/wasi-http/src/guest/cache.rs: responses stored under the entity tag of the
-- request, in a bucket of the guest's cache of `wasi:keyvalue`.
pub mod Laws
use yetti.Base.{
  ℕ, ◌≡◌, Bool, true, false, ◌||◌, Option, none, some, List, [], ◌∷◌, ◌++◌, map, Text, Bytes,
  nat_eq, ◌==◌, if◌then◌else◌,
}
use yetti.Base.Lists.{bytes, is_empty}
use yetti.Base.Exec.{Result, ok, err, Exec, pure, raise, map_err, continue, ◌>>=◌, ◌>>◌}
use yetti.Foreign.Anyhow.{Anyhow}
use yetti.Foreign.Http.{Http, Response, Request}
use yetti.KeyValue.Backend.{Backend}
use yetti.KeyValue.Cache.{Env, Failure, error, panic, Guest}
use yetti.KeyValue
use yetti.Http.Control.{Control, default, cache_control, try_from}

pub record Cache : Type 0 where
  pub control : Control
  pub bucket : Text

pub record Serialized : Type 0 where
  pub status : ℕ
  pub headers : List (Text × Text)
  pub body : Bytes

-- The crate `rkyv` at the type `Serialized`.
pub record Rkyv (E : Type 0) : Type 0 where
  pub to_bytes : Serialized → Result E Bytes
  pub from_bytes : Bytes → Result E Serialized
  pub from_bytes-to_bytes : (s : Serialized) (x : Bytes) → to_bytes s ≡ ok x → from_bytes x ≡ ok s

abbrev pub cache_bucket : Text
cache_bucket = bytes "default-cache"

-- `CacheOptions`, or its default
abbrev pub bucket_name : Option Text → Text
bucket_name none = cache_bucket
bucket_name (some name) = name

module _ (env : Env) (http : Http env.ah) (rkyv : Rkyv env.ah.Error) where
  open env use {ah}

  abbrev pub Fallible : Type 0 → Type 0
  Fallible A = Result ah.Error A

  -- `Cache::maybe_from`
  unfoldable pub maybe_from : Request http → Fallible (Option Cache)
  maybe_from request = elim (http.get request.headers cache_control) [
    | none ↦ ok none
    | some _ ↦ elim (try_from ah http request.headers) [
      | err e ↦ err (ah.context (bytes "issue parsing Cache-Control headers") e)
      | ok control ↦
          ok (some (record { control = control; bucket = bucket_name request.cache_options }))
    ]
  ]

  -- `v.to_str().unwrap_or_default()`
  abbrev text_or_default : Result ah.Error Text → Text
  text_or_default (ok t) = t
  text_or_default (err e) = []

  unfoldable pub to_serialized : Response http → Serialized
  to_serialized response = record {
    status = http.as_u16 response.status;
    headers = map (λ (k, v). (k, text_or_default (http.to_str v))) (http.iter response.headers);
    body = response.body;
  }

  unfoldable pub serialize : Response http → Fallible Bytes
  serialize response =
      map_err (λ e. ah.msg (bytes "serializing response: " ++ ah.to_string e))
        (rkyv.to_bytes (to_serialized response))

  -- The headers that `Response::builder` collects, with the first error that it meets.
  add_header :
      Text → Result ah.Error http.HeaderValue → Fallible http.HeaderMap → Fallible http.HeaderMap
  add_header k v (err e) = err e
  add_header k (err e) (ok m) = err e
  add_header k (ok v) (ok m) = ok (http.append m k v)

  unfoldable pub build_headers :
      Fallible http.HeaderMap → List (Text × Text) → Fallible http.HeaderMap
  unfolding add_header
  build_headers m [] = m
  build_headers m ((k, v) ∷ headers) = build_headers (add_header k (http.from_str v) m) headers

  finish : Fallible http.StatusCode → Fallible http.HeaderMap → Bytes → Fallible (Response http)
  finish (ok status) (ok headers) body =
      ok (record { status = status; headers = headers; body = body })
  finish (err e) headers body = err (ah.context (bytes "building response from cached data") e)
  finish (ok status) (err e) body = err (ah.context (bytes "building response from cached data") e)

  unfoldable pub from_serialized : Serialized → Fallible (Response http)
  unfolding finish
  from_serialized s =
      finish (http.from_u16 s.status) (build_headers (ok http.empty) s.headers) s.body

  unfoldable pub deserialize : Bytes → Fallible (Response http)
  deserialize x = elim (rkyv.from_bytes x) [
    | err e ↦ err (ah.msg (bytes "deserializing cached response: " ++ ah.to_string e))
    | ok s ↦ from_serialized s
  ]

  abbrev lift_result : {A : Type 0} → Fallible A → Guest env A
  lift_result r s = (map_err error r, s)

  abbrev in_context : Text → Failure ah.Error → Failure ah.Error
  in_context message (error e) = error (ah.context message e)
  in_context message panic = panic

  abbrev described : Failure ah.Error → Failure ah.Error
  described (error e) = error (ah.msg (bytes "caching response: " ++ ah.to_string e))
  described panic = panic

  abbrev with_error :
      {A : Type 0} → (Failure ah.Error → Failure ah.Error) → Guest env A → Guest env A
  with_error f m s = let (r, s') = m s in (map_err f r, s')

  found : Option Bytes → Guest env (Option (Response http))
  found none = pure none
  found (some x) = do response ← lift_result (deserialize x); pure (some response)

  -- `Cache::get`, with the reading of the clock in the cache of `wasi:keyvalue`
  unfoldable pub get : Cache → ℕ → Guest env (Option (Response http))
  unfolding found
  get self now =
      if self.control.no_cache || (self.control.no_store || is_empty self.control.etag)
      then pure none
      else do
        cache ← KeyValue.Cache.open_cache env self.bucket
        entry ←
            with_error (in_context (bytes "retrieving cached response"))
              (KeyValue.Cache.get env cache self.control.etag now)
        found entry

  -- `Cache::put`, with the two readings of the clock
  unfoldable pub put : Cache → Response http → ℕ → ℕ → Guest env (Unit {0})
  put self response created checked =
      if self.control.no_store || (is_empty self.control.etag || self.control.max_age == 0)
      then pure tt
      else do
        cache ← KeyValue.Cache.open_cache env self.bucket
        value ← lift_result (serialize response)
        with_error described (
            KeyValue.Cache.set env cache self.control.etag value (some self.control.max_age) created
              checked)
        pure tt
