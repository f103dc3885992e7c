-- ===== src/Tests/Sql.antt =====
-- The theorems on `wasi:sql` at a database whose only query echoes its parameters as one row.
use yetti.Base.{
  ℕ, zero, suc, ◌≡◌, refl, Bool, true, Option, none, some, List, [], ◌∷◌, map, Text, Bytes, nat_eq,
  text_eq, arith, if◌then◌else◌,
}
use yetti.Base.Lists.{bytes}
use yetti.Base.HashMap
use yetti.Base.Exec.{Result, ok, err}
use yetti.Foreign.Anyhow.{chained}
use yetti.Foreign.ResourceTable.{ResourceTable, growing}
use yetti.Sql.Value.{
  Floats, Data, int32, str, Value, text, datatype_to_rusqlite_value, rusqlite_value_to_datatype,
}
use yetti.Sql.Json.{Field, Row}
use yetti.Sql.Connection.{Context, Sqlite, query, sqlite}
use yetti.Sql.Connection.Echo.{bound, json_fields, json_columns, query-IsEcho}
use yetti.Sql.Host.{Statement, Entry, connection_proxy, statement, error, View}

-- Numbers in the place of floating-point numbers.
abbrev fl : Floats
fl = record { F32 = ℕ; F64 = ℕ; widen = λ f. f; is_finite = λ f. true }

abbrev encode_string : Bytes → Text
encode_string x = x

abbrev utf8_error : Bytes → List Text
utf8_error x = []

read_text :
    rusqlite_value_to_datatype fl chained utf8_error (text (bytes "a"))
    ≡ ok (str (some (bytes "a")))
unfolding rusqlite_value_to_datatype yetti.Base.Utf8.is_utf8 yetti.Base.Utf8.first
read_text = refl

-- A row is the list of its values.
unfoldable pub nth : List (Value ℕ) → ℕ → Result Text (Value ℕ)
nth [] i = err []
nth (v ∷ vs) zero = ok v
nth (v ∷ vs) (suc i) = nth vs i

abbrev echo : Sqlite fl chained
echo = record {
  Database = ℕ;
  Connection = Unit {0};
  Statement = Unit {0};
  RowRef = List (Value ℕ);
  Error = Text;
  from_error = λ e. e ∷ [];
  open_database = λ path n. (ok tt, n);
  prepare = λ conn q n. (ok tt, suc n);
  column_names = λ stmt. bytes "a" ∷ [];
  query = λ stmt values n. (ok (ok values ∷ []), suc n);
  execute = λ stmt values n. (ok 0, suc n);
  get_ref = nth;
}

abbrev row : Row (Data fl)
row = record {
  index = bytes "0";
  fields = record { name = bytes "a"; value = str (some (bytes "x")) } ∷ [];
}

ran : query fl chained utf8_error echo tt [] (str (some (bytes "x")) ∷ []) 0 ≡ (ok (row ∷ []), 2)
unfolding query yetti.Sql.Connection.read_rows yetti.Sql.Connection.read_fields nth
    rusqlite_value_to_datatype datatype_to_rusqlite_value yetti.Base.Utf8.is_utf8
    yetti.Base.Utf8.first yetti.Base.Decimal.to_string
ran = refl

-- All bits of an `int32` set, in a column `a`.
abbrev minus_one : List (Text × Data fl)
minus_one = (bytes "a", int32 (some 4294967295)) ∷ []

query-IsEcho_example :
    (fields : List (Field (Data fl))) × (query fl chained utf8_error echo tt [] (bound minus_one) 0
      ≡ (ok (record { index = bytes "0"; fields = fields } ∷ []), 2))
    × (json_fields fl encode_string chained utf8_error echo fields
        ≡ json_columns fl encode_string chained utf8_error echo minus_one)
unfolding nth
query-IsEcho_example =
    query-IsEcho fl encode_string chained utf8_error echo tt [] minus_one tt
      (datatype_to_rusqlite_value fl (int32 (some 4294967295)) ∷ []) 0 1 2 refl refl refl (refl, tt)
      (omega arith, tt)

abbrev C : Context fl chained
C = sqlite fl chained utf8_error echo (bytes ":memory:")

abbrev T : ResourceTable (Entry fl chained (Unit {0}))
T = growing (Entry fl chained (Unit {0}))

abbrev table_error : Text → List Text
table_error t = t ∷ []

abbrev x : List (Data fl)
x = str (some (bytes "x")) ∷ []

abbrev stmt : Statement fl
stmt = record { query = []; params = x }

abbrev v : View fl chained C T table_error
v = record { ctx = 0; table = (3, connection_proxy tt) ∷ [] }

connected : T.get v.table 3 ≡ some (connection_proxy tt)
unfolding HashMap.get nat_eq
connected = refl

pushed : T.push (statement stmt) v.table ≡ (ok 4, (4, statement stmt) ∷ v.table)
unfolding yetti.Foreign.ResourceTable.push_entry yetti.Foreign.ResourceTable.fresh
pushed = refl

-- Bytes that are no text cannot be read.
abbrev broken : Statement fl
broken = record { query = []; params = str (some (255 ∷ [])) ∷ [] }

abbrev u : View fl chained C T table_error
u = record { ctx = 0; table = (4, statement broken) ∷ (3, connection_proxy tt) ∷ [] }

abbrev message : List Text
message = bytes "invalid UTF-8 in text value" ∷ []

u_connected : T.get u.table 3 ≡ some (connection_proxy tt)
unfolding HashMap.get nat_eq
u_connected = refl

u_prepared : T.get u.table 4 ≡ some (statement broken)
unfolding HashMap.get nat_eq
u_prepared = refl

failed : query fl chained utf8_error echo tt [] broken.params 0 ≡ (err message, 2)
unfolding query yetti.Sql.Connection.read_rows yetti.Sql.Connection.read_fields nth
    rusqlite_value_to_datatype datatype_to_rusqlite_value yetti.Base.Utf8.is_utf8
    yetti.Base.Utf8.first
failed = refl

reported : T.push (error message) u.table ≡ (ok 9, (9, error message) ∷ u.table)
unfolding yetti.Foreign.ResourceTable.push_entry yetti.Foreign.ResourceTable.fresh
reported = refl
