-- ===== src/KeyValue/Host.antt =====
-- The handlers of `wasi:keyvalue/store`: crates/wasi-keyvalue/src/host/store_impl.rs, over any
-- backend and any resource table. An `await` on the backend is one step of the backend.
pub mod Batch
pub mod Atomics
pub mod Laws
use yetti.Base.{ℕ, Bool, Option, none, some, List, Text, Bytes}
use yetti.Base.Lists.{bytes}
use yetti.Base.HashMap.{is_some}
use yetti.Base.Exec.{Result, ok, err, Exec, pure, map_err, continue, ◌>>=◌, ◌>>◌}
use yetti.Foreign.Anyhow.{Anyhow}
use yetti.Foreign.ResourceTable.{ResourceTable}
use yetti.KeyValue.Backend.{Backend}

-- The variant `error` of `wasi:keyvalue/store`.
pub data Error : Type 0 where
  no_such_store access_denied : Error
  other : Text → Error

-- `Cas` of crates/wasi-keyvalue/src/host/resource.rs
pub record Cas : Type 0 where
  pub key : Text
  pub current : Option Bytes

-- What the table holds for this service: `BucketProxy` and `Cas`.
pub data Entry (Bucket : Type 0) : Type 0 where
  bucket_proxy : Bucket → Entry Bucket
  cas : Cas → Entry Bucket

pub record KeyResponse : Type 0 where
  pub keys : List Text
  pub cursor : Option Text

module _ (ah : Anyhow) (B : Backend ah.Error) (T : ResourceTable (Entry B.Bucket)) where
  -- `WasiKeyValueCtxView`
  pub record View : Type 0 where
    pub ctx : B.State
    pub table : T.Table

  abbrev pub Handler : Type 0 → Type 0
  Handler A = Exec View Error A

  -- `From<anyhow::Error>` and `From<ResourceTableError>`
  abbrev pub from_anyhow : ah.Error → Error
  from_anyhow e = other (ah.to_string e)

  abbrev pub from_table : T.TableError → Error
  from_table e = other (T.to_string e)

  -- A call of the backend whose error is converted by `f`.
  unfoldable pub call : {A : Type 0} → (ah.Error → ah.Error) → Exec B.State ah.Error A → Handler A
  call f m v = let (r, c) = m v.ctx in (map_err (λ e. from_anyhow (f e)) r, record v { ctx = c })

  -- A call of the backend whose failure the handler matches on.
  unfoldable pub attempt : {A : Type 0} → Exec B.State ah.Error A → Handler (Result ah.Error A)
  attempt m v = let (r, c) = m v.ctx in (ok r, record v { ctx = c })

  unfoldable pub push : Entry B.Bucket → Handler ℕ
  push e v = let (r, t) = T.push e v.table in (map_err from_table r, record v { table = t })

  as_bucket : Option (Entry B.Bucket) → Result Error B.Bucket
  as_bucket none = err no_such_store
  as_bucket (some (cas c)) = err no_such_store
  as_bucket (some (bucket_proxy b)) = ok b

  unfoldable pub get_bucket : ℕ → Handler B.Bucket
  unfolding as_bucket
  get_bucket self v = (as_bucket (T.get v.table self), v)

  abbrev same : ah.Error → ah.Error
  same e = e

  unfoldable pub open_store : Text → Handler ℕ
  open_store identifier = do
    bucket ← call same (B.open_bucket identifier)
    push (bucket_proxy bucket)

  unfoldable pub get : ℕ → Text → Handler (Option Bytes)
  get self key = do
    bucket ← get_bucket self
    call (ah.context (bytes "issue getting value")) (B.get bucket key)

  unfoldable pub set : ℕ → Text → Bytes → Handler (Unit {0})
  set self key value = do
    bucket ← get_bucket self
    call (ah.context (bytes "issue setting value")) (B.set bucket key value)

  unfoldable pub delete : ℕ → Text → Handler (Unit {0})
  delete self key = do
    bucket ← get_bucket self
    call (ah.context (bytes "issue deleting value")) (B.delete bucket key)

  unfoldable pub exists : ℕ → Text → Handler Bool
  exists self key = do
    bucket ← get_bucket self
    value ← call (ah.context (bytes "issue getting value")) (B.get bucket key)
    pure (is_some value)

  unfoldable pub list_keys : ℕ → Option Text → Handler KeyResponse
  list_keys self cursor = do
    bucket ← get_bucket self
    keys ← call (ah.context (bytes "issue getting value")) (B.keys bucket)
    pure (record { keys = keys; cursor = cursor })

  -- `drop` reports a table's error to the runtime.
  unfoldable pub drop : ℕ → Exec View T.TableError (Unit {0})
  drop rep v = let (r, t) = T.delete rep v.table in (r, record v { table = t })
