-- ===== src/KeyValue/Cache.antt =====
-- The cache for guests: crates/wasi-keyvalue/src/guest/cache.rs, over the guest's view of a store.
-- Each reading of the clock (`Utc::now`) is an argument, in the order in which the code reads it.
pub mod Laws
use yetti.Base.{ℕ, ◌*◌, ◌/◌, Bool, true, false, Option, none, some, Text, Bytes, leb}
use yetti.Base.Lists.{bytes}
use yetti.Base.Exec.{Result, ok, err, Exec, pure, raise, map_err, continue, ◌>>=◌, ◌>>◌}
use yetti.Foreign.Anyhow.{Anyhow}
use yetti.Foreign.Envelope.{second, Chrono, Json}
use yetti.KeyValue.Backend.{Backend}

pub record Cacheable : Type 0 where
  pub value : Bytes
  pub expires_at : ℕ

unfoldable pub is_expired : ℕ → Cacheable → Bool
is_expired now self = leb self.expires_at now

-- A panic ends the guest; an error is returned to its caller.
pub data Failure (E : Type 0) : Type 0 where
  error : E → Failure E
  panic : Failure E

-- The parameters are `anyhow`, `chrono`, `serde_json`, the error of the guest's bindings to
-- `wasi:keyvalue/store` with its conversion, and those bindings.
pub record Env : Type 1 where
  pub ah : Anyhow
  pub chrono : Chrono
  pub json : Json ah
  pub StoreError : Type 0
  pub from_error : StoreError → ah.Error
  pub store : Backend StoreError

module _ (env : Env) where
  open env use {ah, chrono, json, StoreError, from_error, store}

  abbrev pub Guest : Type 0 → Type 0
  Guest A = Exec store.State (Failure ah.Error) A

  -- `self.bucket.….await.context(message)?`
  abbrev call : {A : Type 0} → Text → Exec store.State StoreError A → Guest A
  call message m s =
      let (r, s') = m s in (map_err (λ e. error (ah.context message (from_error e))) r, s')

  unfoldable pub open_cache : Text → Guest store.Bucket
  open_cache bucket = call (bytes "opening bucket") (store.open_bucket bucket)

  -- `Cacheable::try_from(&Vec<u8>)`; `ts_seconds` reads a whole second
  unfoldable pub try_from_bytes : Bytes → Option Cacheable
  try_from_bytes value = elim (json.from_slice value) [
    | ok p ↦ some (record { value = p.0; expires_at = p.1 * second })
    | err e ↦ none
  ]

  -- `TryFrom<Cacheable> for Vec<u8>`; `ts_seconds` writes the whole seconds
  unfoldable pub try_into_bytes : Cacheable → Guest Bytes
  try_into_bytes c s = (
    map_err (λ e. error (ah.context (bytes "issue serializing Cacheable") e))
        (json.to_vec c.value (c.expires_at / second)),
    s,
  )

  expire : store.Bucket → Text → ℕ → Cacheable → Guest (Option Bytes)
  expire self key now ttl_val = elim (is_expired now ttl_val) [
    | true ↦ (do call (bytes "deleting expired state") (store.delete self key); pure none)
    | false ↦ pure (some ttl_val.value)
  ]

  unseal : store.Bucket → Text → ℕ → Option Bytes → Guest (Option Bytes)
  unseal self key now none = pure none
  unseal self key now (some entry) = elim (try_from_bytes entry) [
    | none ↦ pure (some entry)
    | some ttl_val ↦ expire self key now ttl_val
  ]

  unfoldable pub get : store.Bucket → Text → ℕ → Guest (Option Bytes)
  unfolding unseal expire
  get self key now = do
    entry ← call (bytes "reading state") (store.get self key)
    unseal self key now entry

  -- `Cacheable::new` with `Duration::seconds(secs.cast_signed())`: a cast keeps the bit pattern
  new_cacheable : Bytes → ℕ → ℕ → Guest Cacheable
  new_cacheable value created secs = elim (chrono.add_seconds created secs) [
    | none ↦ raise panic
    | some t ↦ pure (record { value = value; expires_at = t })
  ]

  seal : Bytes → ℕ → Option ℕ → Guest Bytes
  seal value created none = pure value
  seal value created (some secs) = do
    envelope ← new_cacheable value created secs
    try_into_bytes envelope

  unfoldable pub set : store.Bucket → Text → Bytes → Option ℕ → ℕ → ℕ → Guest (Option Bytes)
  unfolding seal new_cacheable
  set self key value ttl_secs created checked = do
    sealed ← seal value created ttl_secs
    previous ← get self key checked
    call (bytes "setting state with ttl") (store.set self key sealed)
    pure previous

  unfoldable pub delete : store.Bucket → Text → Guest (Unit {0})
  delete self key = call (bytes "deleting entry") (store.delete self key)
