-- ===== src/Sql/Connection/Echo.antt =====
-- The values that a query binds and reads back (crates/wasi-sql/src/host/default_impl.rs), as the
-- guest's JSON shows them (crates/wasi-sql/src/guest.rs).
use yetti.Base.{ℕ, suc, ◌≡◌, refl, List, [], ◌∷◌, map, Text, Bytes}
use yetti.Base.Lists.{bytes, All}
use yetti.Base.Exec.{ok}
use yetti.Foreign.Anyhow.{Anyhow}
use yetti.Sql.Value.{Floats, Data, datatype_to_rusqlite_value}
use yetti.Sql.Json.{Field, Scalar, json_value}
use yetti.Sql.Json.Laws.{IsKept, json-stored}
use yetti.Sql.Connection.{Sqlite, read_fields, read_rows, query}

-- The names of some columns, and what is bound to them.
abbrev pub names {ℓ} : {A : Type ℓ} → List (Text × A) → List Text
names = map (λ c. c.0)

abbrev pub bound {ℓ} : {A : Type ℓ} → List (Text × A) → List A
bound = map (λ c. c.1)

module _ (fl : Floats) (encode_string : Bytes → Text) (ah : Anyhow) (utf8_error : Bytes → ah.Error)
    (S : Sqlite fl ah) where
  -- The columns of the row, from the one at `i`, are the parameters as SQLite's values.
  abbrev pub IsEcho : S.RowRef → ℕ → List (Data fl) → Type 0
  IsEcho row i [] = Unit
  IsEcho row i (d ∷ ds) =
      (S.get_ref row i ≡ ok (datatype_to_rusqlite_value fl d)) × IsEcho row (suc i) ds

  -- The names and the JSON of fields and of columns.
  abbrev pub json_fields : List (Field (Data fl)) → List (Text × Scalar fl.F64)
  json_fields = map (λ f. (f.name, json_value fl encode_string f.value))

  abbrev pub json_columns : List (Text × Data fl) → List (Text × Scalar fl.F64)
  json_columns = map (λ c. (c.0, json_value fl encode_string c.1))

  read_fields-IsEcho :
      (row : S.RowRef) (i : ℕ) (columns : List (Text × Data fl))
      → IsEcho row i (bound columns)
      → All (IsKept fl encode_string ah utf8_error) (bound columns)
      → (fields : List (Field (Data fl))) × (read_fields fl ah utf8_error S row i (names columns)
          ≡ ok fields)
        × (json_fields fields ≡ json_columns columns)
  unfolding read_fields
  read_fields-IsEcho row i [] echo kept = ([], refl, refl)
  read_fields-IsEcho row i ((name, d) ∷ columns) (got, echo) (range, kept) =
      let (r, read, same) = json-stored fl encode_string ah utf8_error d range in
      let (fields, rest, sames) = read_fields-IsEcho row (suc i) columns echo kept in
      (record { name = name; value = r } ∷ fields, rw (got, read, rest) refl, rw (same, sames) refl)

  -- A query whose one row has as its columns the parameters that were bound, as SQLite answers to
  -- `SELECT ?1, ?2`, succeeds with one row, whose fields have the names of the columns and, as JSON,
  -- the values of the parameters, in their order. The parameters are any but truth values, dates,
  -- times, timestamps and unsigned numbers of 2 ^ 63 or more; texts are UTF-8, and other numbers in
  -- the range of their types. Nothing is said of values that are stored in a table, whose columns
  -- can convert them.
  pub query-IsEcho :
      (conn : S.Connection) (q : Text) (columns : List (Text × Data fl)) (stmt : S.Statement)
      (row : S.RowRef) (s s' s'' : S.Database)
      → S.prepare conn q s ≡ (ok stmt, s')
      → S.query stmt (map (datatype_to_rusqlite_value fl) (bound columns)) s'
        ≡ (ok (ok row ∷ []), s'')
      → S.column_names stmt ≡ names columns
      → IsEcho row 0 (bound columns)
      → All (IsKept fl encode_string ah utf8_error) (bound columns)
      → (fields : List (Field (Data fl))) × (query fl ah utf8_error S conn q (bound columns) s
          ≡ (ok (record { index = bytes "0"; fields = fields } ∷ []), s''))
        × (json_fields fields ≡ json_columns columns)
  unfolding query read_rows yetti.Base.Decimal.to_string
  query-IsEcho conn q columns stmt row s s' s'' prepared ran named echo kept =
      let (fields, read, same) = read_fields-IsEcho row 0 columns echo kept in
      (fields, rw (prepared, ran, named, read) refl, same)
