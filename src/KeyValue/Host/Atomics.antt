-- ===== src/KeyValue/Host/Atomics.antt =====
-- The handlers of `wasi:keyvalue/atomics`: crates/wasi-keyvalue/src/host/atomics_impl.rs. An `i64` is
-- its 64-bit pattern, and `+` wraps as in the release profile; a build with overflow checks panics
-- where it wraps.
pub mod Laws
use yetti.Base.{ℕ, ◌+◌, ◌-◌, ◌%◌, ◌^◌, Option, none, some, Text, Bytes, ◌++◌}
use yetti.Base.Lists.{bytes, length, take, replicate}
use yetti.Base.Bits.{from_be_bytes, to_be_bytes}
use yetti.Base.Exec.{Result, ok, err, Exec, pure, raise, map_err, continue, ◌>>=◌, ◌>>◌}
use yetti.Foreign.Anyhow.{Anyhow}
use yetti.Foreign.ResourceTable.{ResourceTable}
use yetti.KeyValue.Backend.{Backend}
use yetti.KeyValue.Host.{
  Error, no_such_store, other, Cas, Entry, bucket_proxy, cas, View, Handler, from_anyhow, call,
  attempt, push, get_bucket,
}

-- The first eight bytes of the value, with zeros behind a shorter one.
unfoldable pub buffer : Bytes → Bytes
buffer value = take 8 value ++ replicate (8 - length value) 0

unfoldable pub i64_of : Bytes → ℕ
unfolding buffer
i64_of value = from_be_bytes 0 (buffer value)

as_cas : {Bucket : Type 0} → Option (Entry Bucket) → Result Error Cas
as_cas none = err no_such_store
as_cas (some (bucket_proxy b)) = err no_such_store
as_cas (some (cas c)) = ok c

module _ (ah : Anyhow) (B : Backend ah.Error) (T : ResourceTable (Entry B.Bucket)) where
  or_no_value : Text → Result ah.Error (Option Bytes) → Handler ah B T Bytes
  or_no_value key (ok (some value)) = pure value
  or_no_value key (ok none) = raise (from_anyhow ah B T (ah.msg (bytes "no value for " ++ key)))
  or_no_value key (err e) = raise (from_anyhow ah B T (ah.msg (bytes "no value for " ++ key)))

  -- The first half of `increment`: up to the end of its first `await`.
  unfoldable pub increment_read : B.Bucket → Text → Handler ah B T ℕ
  unfolding or_no_value
  increment_read bucket key = do
    found ← attempt ah B T (B.get bucket key)
    value ← or_no_value key found
    pure (i64_of value)

  -- The second half: from the addition to the end of the second `await`.
  unfoldable pub increment_write : B.Bucket → Text → ℕ → ℕ → Handler ah B T ℕ
  increment_write bucket key value delta = do
    let inc = (value + delta) % 2 ^ 64
    call ah B T (λ e. ah.msg (bytes "issue saving increment: " ++ ah.to_string e))
        (B.set bucket key (to_be_bytes 8 inc))
    pure inc

  unfoldable pub increment : ℕ → Text → ℕ → Handler ah B T ℕ
  increment self key delta = do
    bucket ← get_bucket ah B T self
    value ← increment_read bucket key
    increment_write bucket key value delta

  -- `swap` is not implemented: it reports an error to the runtime, whatever the handle.
  unfoldable pub swap : ℕ → Bytes → Exec (View ah B T) ah.Error (Result Error (Unit {0}))
  swap self value = raise (ah.msg (bytes "not implemented"))

  -- `HostCas::new`
  unfoldable pub new_cas : ℕ → Text → Handler ah B T ℕ
  new_cas self key = do
    bucket ← get_bucket ah B T self
    current ← call ah B T (ah.context (bytes "issue getting key")) (B.get bucket key)
    push ah B T (cas (record { key = key; current = current }))

  unfoldable pub get_cas : ℕ → Handler ah B T Cas
  unfolding as_cas
  get_cas self v = (as_cas (T.get v.table self), v)

  unfoldable pub current : ℕ → Handler ah B T (Option Bytes)
  current self = do c ← get_cas self; pure c.current

  -- `HostCas::drop` reports a table's error to the runtime.
  unfoldable pub drop : ℕ → Exec (View ah B T) T.TableError (Unit {0})
  drop rep v = let (r, t) = T.delete rep v.table in (r, record v { table = t })
