-- ===== src/Sql/Connection.antt =====
-- Connections (crates/wasi-sql/src/host/resource.rs, host.rs) and those to SQLite
-- (crates/wasi-sql/src/host/default_impl.rs).
pub mod Laws
pub mod Echo
use yetti.Base.{ℕ, suc, ◌%◌, ◌^◌, List, [], ◌∷◌, map, Text, Bytes}
use yetti.Base.Lists.{bytes}
use yetti.Base.Decimal.{to_string}
use yetti.Base.Exec.{Result, ok, err, Exec, lift, pure, map_err, continue, ◌>>=◌}
use yetti.Foreign.Anyhow.{Anyhow}
use yetti.Sql.Value.{Floats, Data, Value, datatype_to_rusqlite_value, rusqlite_value_to_datatype}
use yetti.Sql.Json.{Field, Row}

-- The traits `WasiSqlCtx` and `Connection`.
pub record Context (fl : Floats) (ah : Anyhow) : Type 1 where
  pub State : Type 0
  pub Connection : Type 0
  pub open_connection : Text → Exec State ah.Error Connection
  pub query : Connection → Text → List (Data fl) → Exec State ah.Error (List (Row (Data fl)))
  pub exec : Connection → Text → List (Data fl) → Exec State ah.Error ℕ

-- The crate `rusqlite`: the rows of a query are the results of `rows.next()` in their order.
pub record Sqlite (fl : Floats) (ah : Anyhow) : Type 1 where
  pub Database : Type 0
  pub Connection : Type 0
  pub Statement : Type 0
  pub RowRef : Type 0
  pub Error : Type 0
  pub from_error : Error → ah.Error
  pub open_database : Text → Exec Database Error Connection
  pub prepare : Connection → Text → Exec Database Error Statement
  pub column_names : Statement → List Text
  pub query : Statement → List (Value fl.F64) → Exec Database Error (List (Result Error RowRef))
  pub execute : Statement → List (Value fl.F64) → Exec Database Error ℕ
  pub get_ref : RowRef → ℕ → Result Error (Value fl.F64)

infixl 10 ◌>>?◌
abbrev pub ◌>>?◌ : {E A B : Type 0} → Result E A → (A → Result E B) → Result E B
ok a >>? f = f a
err e >>? f = err e

module _ (fl : Floats) (ah : Anyhow) (utf8_error : Bytes → ah.Error) (S : Sqlite fl ah) where
  abbrev in_context : {A : Type 0} → Text → Result S.Error A → Result ah.Error A
  in_context message r = map_err (λ e. ah.context message (S.from_error e)) r

  abbrev call : {A : Type 0} → Text → Exec S.Database S.Error A → Exec S.Database ah.Error A
  call message m s = let (r, s') = m s in (in_context message r, s')

  -- The loop over the columns, from the one at `i`.
  unfoldable pub read_fields : S.RowRef → ℕ → List Text → Result ah.Error (List (Field (Data fl)))
  read_fields row i [] = ok []
  read_fields row i (name ∷ names) =
      in_context (bytes "failed to get column value") (S.get_ref row i) >>? λ value.
      rusqlite_value_to_datatype fl ah utf8_error value >>? λ data_type.
      read_fields row (suc i) names >>? λ fields.
      ok (record { name = name; value = data_type } ∷ fields)

  -- The loop over the rows, from the one at `index`.
  unfoldable pub read_rows :
      List Text → ℕ → List (Result S.Error S.RowRef) → Result ah.Error (List (Row (Data fl)))
  read_rows names index [] = ok []
  read_rows names index (next ∷ rows) = in_context (bytes "failed to fetch row") next >>? λ row.
      read_fields row 0 names >>? λ fields. read_rows names (suc index) rows >>? λ rest.
      ok (record { index = to_string index; fields = fields } ∷ rest)

  -- `SqlDefault::connect_with`: a first connection checks the path, which is kept
  unfoldable pub connect_with : Text → Exec S.Database ah.Error Text
  connect_with database = do
    _conn ← call (bytes "failed to open SQLite database") (S.open_database database)
    pure database

  unfoldable pub open_connection : Text → Text → Exec S.Database ah.Error S.Connection
  open_connection database_path _name =
      call (bytes "failed to open SQLite database") (S.open_database database_path)

  unfoldable pub query :
      S.Connection → Text → List (Data fl) → Exec S.Database ah.Error (List (Row (Data fl)))
  query conn q params = do
    stmt ← call (bytes "failed to prepare statement") (S.prepare conn q)
    rows ←
        call (bytes "failed to execute query")
          (S.query stmt (map (datatype_to_rusqlite_value fl) params))
    lift (read_rows (S.column_names stmt) 0 rows)

  unfoldable pub exec : S.Connection → Text → List (Data fl) → Exec S.Database ah.Error ℕ
  exec conn q params = do
    stmt ← call (bytes "failed to prepare statement") (S.prepare conn q)
    rows_affected ←
        call (bytes "failed to execute statement")
          (S.execute stmt (map (datatype_to_rusqlite_value fl) params))
    pure (rows_affected % 2 ^ 32)

  abbrev pub sqlite : Text → Context fl ah
  sqlite database_path = record {
    State = S.Database;
    Connection = S.Connection;
    open_connection = open_connection database_path;
    query = query;
    exec = exec;
  }
