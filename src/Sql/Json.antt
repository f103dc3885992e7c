-- ===== src/Sql/Json.antt =====
-- `into_json` of crates/wasi-sql/src/guest.rs: rows as JSON.
pub mod Laws
use yetti.Base.{
  ℕ, ◌-◌, ◌^◌, Bool, true, Option, none, some, List, [], ◌∷◌, Text, Bytes, text_eq, ltb,
  if◌then◌else◌,
}
use yetti.Base.HashMap
use yetti.Base.HashMap.{HashMap}
use yetti.Sql.Value.{
  Floats, FormattedValue, DataType, Data, int32, int64, uint32, uint64, float, double, str, boolean,
  date, time, timestamp, binary,
}

-- `types::Field` and `types::Row`
pub record Field (A : Type 0) : Type 0 where
  pub name : Text
  pub value : A

pub record Row (A : Type 0) : Type 0 where
  pub index : Text
  pub fields : List (Field A)

-- The `serde_json::Value`s of single columns; a number is kept as one of three kinds.
pub data Scalar (F64 : Type 0) : Type 0 where
  null : Scalar F64
  pos_int neg_int : ℕ → Scalar F64
  float_number : F64 → Scalar F64
  string : Text → Scalar F64
  bool : Bool → Scalar F64

module _ (fl : Floats) (encode_string : Bytes → Text) where
  -- `Number::from` at a signed number: its pattern in `w` bits, and at an unsigned one
  abbrev pub of_signed : ℕ → ℕ → Scalar fl.F64
  of_signed w i = if ltb i (2 ^ (w - 1)) then pos_int i else neg_int (2 ^ w - i)

  abbrev pub of_f64 : fl.F64 → Scalar fl.F64
  of_f64 f = if fl.is_finite f then float_number f else null

  unfoldable pub json_value : Data fl → Scalar fl.F64
  json_value (int32 (some v)) = of_signed 32 v
  json_value (int64 (some v)) = of_signed 64 v
  json_value (uint32 (some v)) = pos_int v
  json_value (uint64 (some v)) = pos_int v
  json_value (float (some v)) = of_f64 (fl.widen v)
  json_value (double (some v)) = of_f64 v
  json_value (str (some v)) = string v
  json_value (boolean (some v)) = bool v
  json_value (date (some formatted)) = string formatted.value
  json_value (time (some formatted)) = string formatted.value
  json_value (timestamp (some formatted)) = string formatted.value
  json_value (binary (some v)) = string (encode_string v)
  json_value _ = null

  insert_fields :
      HashMap Text (Scalar fl.F64) → List (Field (Data fl)) → HashMap Text (Scalar fl.F64)
  insert_fields map [] = map
  insert_fields map (field ∷ fields) =
      insert_fields (HashMap.insert map field.name (json_value field.value)) fields

  -- The array of objects; the code returns it in `Ok`.
  unfoldable pub into_json : List (Row (Data fl)) → List (HashMap Text (Scalar fl.F64))
  unfolding insert_fields
  into_json [] = []
  into_json (row ∷ rows) = insert_fields [] row.fields ∷ into_json rows
