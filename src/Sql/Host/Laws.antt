-- ===== src/Sql/Host/Laws.antt =====
-- What the handlers of `wasi:sql` do with statements and errors (crates/wasi-sql/src/host/types_impl.rs
-- and readwrite_impl.rs).
use yetti.Base.{ℕ, ◌≡◌, ◌≢◌, ◌∙◌, none, some, List, Text}
use yetti.Base.Exec.{ok, err}
use yetti.Foreign.Anyhow.{Anyhow}
use yetti.Foreign.ResourceTable.{ResourceTable}
use yetti.Sql.Value.{Floats, Data}
use yetti.Sql.Json.{Row}
use yetti.Sql.Connection.{Context}
use yetti.Sql.Host.{
  Statement, Entry, connection_proxy, statement, error, View, get_connection, get_statement,
  as_error, prepare, query, trace,
}

module _ (fl : Floats) (ah : Anyhow) (C : Context fl ah)
    (T : ResourceTable (Entry fl ah C.Connection)) (table_error : T.TableError → ah.Error)
    (v : View fl ah C T table_error) where
  -- A statement that was prepared is run as it was prepared: if the table takes it, `query` at its
  -- handle passes the text and the parameters to the connection, and returns the connection's rows.
  query-prepare :
      (c q : ℕ) (conn : C.Connection) (text : Text) (params : List (Data fl)) (t : T.Table)
      (rows : List (Row (Data fl))) (s : C.State)
      → T.get v.table c ≡ some (connection_proxy conn)
      → T.push (statement (record { query = text; params = params })) v.table ≡ (ok q, t)
      → C.query conn text params v.ctx ≡ (ok rows, s)
      → let after : View fl ah C T table_error = record { ctx = v.ctx; table = t } in
        (prepare fl ah C T table_error text params v ≡ (ok (ok q), after))
        × (query fl ah C T table_error c q after ≡ (ok (ok rows), record { ctx = s; table = t }))
  unfolding prepare query get_connection get_statement
  query-prepare c q conn text params t rows s named pushed ran =
      let e : Entry fl ah C.Connection = statement (record { query = text; params = params }) in
      let fresh = T.push_fresh e v.table t q pushed in
      let held = T.get-push_self e v.table t q pushed in
      let other : q ≢ c = λ same. cc in
      let kept = T.get-push_ne e v.table t q c pushed other ∙ named in
      (rw pushed, rw (kept, held, ran))

  -- When the connection fails, `query` still succeeds: it returns a new handle to the error, whose
  -- `trace` is the error's message, and what every other handle stands for stays.
  trace-query :
      (c q r : ℕ) (conn : C.Connection) (stmt : Statement fl) (e : ah.Error) (s : C.State)
      (t : T.Table)
      → T.get v.table c ≡ some (connection_proxy conn)
      → T.get v.table q ≡ some (statement stmt)
      → C.query conn stmt.query stmt.params v.ctx ≡ (err e, s)
      → T.push (error e) v.table ≡ (ok r, t)
      → let after : View fl ah C T table_error = record { ctx = s; table = t } in
        (query fl ah C T table_error c q v ≡ (ok (err r), after))
        × ((trace fl ah C T table_error r after) ≡ (ok (ah.to_string e), after))
        × (T.get v.table r ≡ none)
  unfolding query trace get_connection get_statement as_error
  trace-query c q r conn stmt e s t named prepared failed pushed = (
    rw (named, prepared, failed, pushed),
    rw (T.get-push_self (error e) v.table t r pushed),
    T.push_fresh (error e) v.table t r pushed,
  )
