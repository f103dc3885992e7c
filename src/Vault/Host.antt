-- ===== src/Vault/Host.antt =====
-- The handlers of `wasi:vault`: crates/wasi-vault/src/host/vault_impl.rs, over any vault and any
-- resource table.
pub mod Laws
use yetti.Base.{ℕ, Bool, Option, none, some, List, Text, Bytes}
use yetti.Base.Lists.{bytes}
use yetti.Base.HashMap.{is_some}
use yetti.Base.Exec.{Result, ok, err, Exec, pure, map_err, continue, ◌>>=◌}
use yetti.Foreign.Anyhow.{Anyhow}
use yetti.Foreign.ResourceTable.{ResourceTable}
use yetti.KeyValue.Backend.{Backend}

-- The variant `error` of `wasi:vault/vault`.
pub data Error : Type 0 where
  no_such_store access_denied : Error
  other : Text → Error

-- The table of this service holds `LockerProxy`s, here the lockers themselves.
module _ (ah : Anyhow) (B : Backend ah.Error) (T : ResourceTable B.Bucket) where
  -- `WasiVaultCtxView`
  pub record View : Type 0 where
    pub ctx : B.State
    pub table : T.Table

  abbrev pub Handler : Type 0 → Type 0
  Handler A = Exec View Error A

  -- `From<anyhow::Error>` and `From<ResourceTableError>`
  abbrev pub from_anyhow : ah.Error → Error
  from_anyhow e = other (ah.to_string e)

  abbrev pub from_table : T.TableError → Error
  from_table e = other (T.to_string e)

  abbrev call : {A : Type 0} → (ah.Error → ah.Error) → Exec B.State ah.Error A → Handler A
  call f m v = let (r, c) = m v.ctx in (map_err (λ e. from_anyhow (f e)) r, record v { ctx = c })

  found : Option B.Bucket → Result Error B.Bucket
  found none = err (from_table T.absent)
  found (some locker) = ok locker

  unfoldable pub get_locker : ℕ → Handler B.Bucket
  unfolding found
  get_locker self v = (found (T.get v.table self), v)

  unfoldable pub open_locker : Text → Handler ℕ
  open_locker locker_id = do
    locker ← call (λ e. e) (B.open_bucket locker_id)
    λ v. let (r, t) = T.push locker v.table in (map_err from_table r, record v { table = t })

  unfoldable pub get : ℕ → Text → Handler (Option Bytes)
  get self secret_id = do
    locker ← get_locker self
    call (ah.context (bytes "issue getting value")) (B.get locker secret_id)

  unfoldable pub set : ℕ → Text → Bytes → Handler (Unit {0})
  set self secret_id value = do
    locker ← get_locker self
    call (ah.context (bytes "issue setting value")) (B.set locker secret_id value)

  unfoldable pub delete : ℕ → Text → Handler (Unit {0})
  delete self secret_id = do
    locker ← get_locker self
    call (ah.context (bytes "issue deleting value")) (B.delete locker secret_id)

  unfoldable pub exists : ℕ → Text → Handler Bool
  exists self secret_id = do
    locker ← get_locker self
    value ← call (ah.context (bytes "issue getting value")) (B.get locker secret_id)
    pure (is_some value)

  unfoldable pub list_ids : ℕ → Handler (List Text)
  list_ids self = do
    locker ← get_locker self
    call (ah.context (bytes "issue getting value")) (B.keys locker)

  unfoldable pub drop : ℕ → Exec View T.TableError (Unit {0})
  drop rep v = let (r, t) = T.delete rep v.table in (r, record v { table = t })
