-- ===== src/Sql/Connection/Laws.antt =====
-- The shape of a query's result (crates/wasi-sql/src/host/default_impl.rs).
use yetti.Base.{ℕ, suc, ◌≡◌, refl, sym, ap, List, [], ◌∷◌, map, Text, Bytes}
use yetti.Base.Lists.{bytes, length}
use yetti.Base.Decimal.{to_string}
use yetti.Base.Exec.{Result, ok, err, ok-injective, map_err-eq-ok, >>=-eq-ok}
use yetti.Foreign.Anyhow.{Anyhow}
use yetti.Sql.Value.{Floats, Data, datatype_to_rusqlite_value, rusqlite_value_to_datatype}
use yetti.Sql.Json.{Field, Row}
use yetti.Sql.Connection.{Sqlite, ◌>>?◌, in_context, call, read_fields, read_rows, query}

>>?-ok :
    {E A B : Type 0} (r : Result E A) (f : A → Result E B) {b : B}
    → ok b ≡ (r >>? f)
    → (a : A) × (f a ≡ ok b) × (r ≡ ok a)
>>?-ok (ok a) f h = (a, sym h, refl)
>>?-ok (err e) f h = cc

module _ (fl : Floats) (ah : Anyhow) (utf8_error : Bytes → ah.Error) (S : Sqlite fl ah) where
  abbrev names_of : List (Field (Data fl)) → List Text
  names_of fields = map (λ f. f.name) fields

  read_fields-names :
      (row : S.RowRef) (i : ℕ) (names : List Text) (fields : List (Field (Data fl)))
      → read_fields fl ah utf8_error S row i names ≡ ok fields
      → names_of fields ≡ names
  unfolding read_fields
  read_fields-names row i [] fields h = rw (← ok-injective [] fields h)
  read_fields-names row i (name ∷ names) fields h =
      let (value, next, _) = >>?-ok (in_context fl ah utf8_error S _ (S.get_ref row i)) _ (sym h) in
      let (d, next1, _) = >>?-ok (rusqlite_value_to_datatype fl ah utf8_error value) _ (sym next) in
      let (fs, made, read) =
        >>?-ok (read_fields fl ah utf8_error S row (suc i) names) _ (sym next1) in
      rw (← ok-injective _ fields made)
        (ap (λ ns. name ∷ ns) (read_fields-names row (suc i) names fs read))

  -- Rows that are numbered from `index` on, with the columns `names`.
  abbrev pub Shaped : List Text → ℕ → List (Row (Data fl)) → Type 0
  Shaped names index [] = Unit
  Shaped names index (r ∷ rs) =
      (r.index ≡ to_string index) × (names_of r.fields ≡ names) × Shaped names (suc index) rs

  read_rows-Shaped :
      (names : List Text) (index : ℕ) (found : List (Result S.Error S.RowRef))
      (rows : List (Row (Data fl)))
      → read_rows fl ah utf8_error S names index found ≡ ok rows
      → Shaped names index rows × (length rows ≡ length found)
  unfolding read_rows
  read_rows-Shaped names index [] rows h = rw (← ok-injective [] rows h) (tt, refl)
  read_rows-Shaped names index (next ∷ found) rows h =
      let (row, rest, _) = >>?-ok (in_context fl ah utf8_error S _ next) _ (sym h) in
      let (fields, rest1, read) =
        >>?-ok (read_fields fl ah utf8_error S row 0 names) _ (sym rest) in
      let (behind, made, looped) =
        >>?-ok (read_rows fl ah utf8_error S names (suc index) found) _ (sym rest1) in
      let (shaped, counted) = read_rows-Shaped names (suc index) found behind looped in
      rw (← ok-injective _ rows made)
        ((refl, read_fields-names row 0 names fields read, shaped), ap suc counted)

  -- A query that succeeds returns the rows of the statement in their order, none left out, numbered
  -- from zero, each with one field for each column, named after it and in the order of the columns.
  query-Shaped :
      (conn : S.Connection) (q : Text) (params : List (Data fl)) (rows : List (Row (Data fl)))
      (s s' : S.Database)
      → query fl ah utf8_error S conn q params s ≡ (ok rows, s')
      → (stmt : S.Statement) × (found : List (Result S.Error S.RowRef)) × ((S.prepare conn q s).0
          ≡ ok stmt)
        × (S.query stmt (map (datatype_to_rusqlite_value fl) params) (S.prepare conn q s).1
            ≡ (ok found, s'))
        × Shaped (S.column_names stmt) 0 rows
        × (length rows ≡ length found)
  unfolding query
  query-Shaped conn q params rows s s' h =
      let message1 = bytes "failed to prepare statement" in
      let message2 = bytes "failed to execute query" in
      let values = map (datatype_to_rusqlite_value fl) params in
      let (stmt, prepared, rest) =
        >>=-eq-ok (call fl ah utf8_error S message1 (S.prepare conn q)) _ s s' rows h in
      let (found, ran, rest1) =
        >>=-eq-ok (call fl ah utf8_error S message2 (S.query stmt values)) _ (S.prepare conn q s).1
          s' rows rest in
      let (shaped, counted) =
        read_rows-Shaped (S.column_names stmt) 0 found rows (ap (λ p. p.0) rest1) in
      let ran1 = map_err-eq-ok _ (S.query stmt values (S.prepare conn q s).1).0 ran in
      (
        stmt,
        found,
        map_err-eq-ok _ (S.prepare conn q s).0 prepared,
        λ i. (ran1 i, (rest1 i).1),
        shaped,
        counted,
      )
