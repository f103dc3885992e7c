-- ===== src/Sql/Host.antt =====
-- The handlers of `wasi:sql`: crates/wasi-sql/src/host/types_impl.rs and readwrite_impl.rs, over any
-- context and any resource table. What a handler reports to the guest as an error is a value; an
-- error of the table traps.
pub mod Laws
use yetti.Base.{ℕ, Option, none, some, List, Text}
use yetti.Base.Exec.{Result, ok, err, Exec, pure, map_err, continue, ◌>>=◌}
use yetti.Foreign.Anyhow.{Anyhow}
use yetti.Foreign.ResourceTable.{ResourceTable}
use yetti.Sql.Value.{Floats, Data}
use yetti.Sql.Json.{Row}
use yetti.Sql.Connection.{Context}

-- `Statement` of crates/wasi-sql/src/host/resource.rs
pub record Statement (fl : Floats) : Type 0 where
  pub query : Text
  pub params : List (Data fl)

-- What the table holds for this service: `ConnectionProxy`, `Statement` and `anyhow::Error`.
pub data Entry (fl : Floats) (ah : Anyhow) (Connection : Type 0) : Type 0 where
  connection_proxy : Connection → Entry fl ah Connection
  statement : Statement fl → Entry fl ah Connection
  error : ah.Error → Entry fl ah Connection

module _ (fl : Floats) (ah : Anyhow) (C : Context fl ah)
    (T : ResourceTable (Entry fl ah C.Connection)) (table_error : T.TableError → ah.Error) where
  -- `WasiSqlCtxView`
  pub record View : Type 0 where
    pub ctx : C.State
    pub table : T.Table

  abbrev pub Handler : Type 0 → Type 0
  Handler A = Exec View ah.Error A

  -- A result whose error is a resource of the guest.
  abbrev pub Reported : Type 0 → Type 0
  Reported A = Handler (Result ℕ A)

  as_connection : Option (Entry fl ah C.Connection) → Result T.TableError C.Connection
  as_connection (some (connection_proxy c)) = ok c
  as_connection _ = err T.absent

  as_statement : Option (Entry fl ah C.Connection) → Result T.TableError (Statement fl)
  as_statement (some (statement s)) = ok s
  as_statement _ = err T.absent

  as_error : Option (Entry fl ah C.Connection) → Result T.TableError ah.Error
  as_error (some (error e)) = ok e
  as_error _ = err T.absent

  unfoldable pub get_connection : ℕ → Handler C.Connection
  unfolding as_connection
  get_connection self v = (map_err table_error (as_connection (T.get v.table self)), v)

  unfoldable pub get_statement : ℕ → Handler (Statement fl)
  unfolding as_statement
  get_statement self v = (map_err table_error (as_statement (T.get v.table self)), v)

  abbrev push : Entry fl ah C.Connection → Handler ℕ
  push e v = let (r, t) = T.push e v.table in (map_err table_error r, record v { table = t })

  abbrev remove : ℕ → Handler (Unit {0})
  remove rep v =
      let (r, t) = T.delete rep v.table in (map_err table_error r, record v { table = t })

  -- A call of the context whose failure the handler matches on.
  abbrev attempt : {A : Type 0} → Exec C.State ah.Error A → Handler (Result ah.Error A)
  attempt m v = let (r, c) = m v.ctx in (ok r, record v { ctx = c })

  -- The two arms of the match: an error becomes a resource.
  abbrev report : {A : Type 0} → Result ah.Error A → Reported A
  report (ok a) = pure (ok a)
  report (err e) = do r ← push (error e); pure (err r)

  opened : Result ah.Error C.Connection → Reported ℕ
  opened (ok conn) = do r ← push (connection_proxy conn); pure (ok r)
  opened (err e) = do r ← push (error e); pure (err r)

  unfoldable pub open_connection : Text → Reported ℕ
  unfolding opened
  open_connection name = do open_conn ← attempt (C.open_connection name); opened open_conn

  unfoldable pub prepare : Text → List (Data fl) → Reported ℕ
  prepare query params = do
    r ← push (statement (record { query = query; params = params }))
    pure (ok r)

  unfoldable pub query : ℕ → ℕ → Reported (List (Row (Data fl)))
  query c q = do
    connection ← get_connection c
    stmt ← get_statement q
    result ← attempt (C.query connection stmt.query stmt.params)
    report result

  unfoldable pub exec : ℕ → ℕ → Reported ℕ
  exec c q = do
    connection ← get_connection c
    stmt ← get_statement q
    result ← attempt (C.exec connection stmt.query stmt.params)
    report result

  unfoldable pub trace : ℕ → Handler Text
  unfolding as_error
  trace self = do
    e ← λ v. (map_err table_error (as_error (T.get v.table self)), v)
    pure (ah.to_string e)

  -- the three `drop`s
  unfoldable pub drop : ℕ → Handler (Unit {0})
  drop rep = remove rep
