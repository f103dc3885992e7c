-- ===== src/Sql/Value.antt =====
-- The values of `wasi:sql` (crates/wasi-sql/wit) and their conversions to and from the values of
-- SQLite (crates/wasi-sql/src/host/default_impl.rs).
use yetti.Base.{
  ℕ, ◌+◌, ◌-◌, ◌^◌, Bool, true, false, Option, none, some, Text, Bytes, ltb, if◌then◌else◌,
}
use yetti.Base.Lists.{bytes}
use yetti.Base.Utf8.{is_utf8}
use yetti.Base.Exec.{Result, ok, err}
use yetti.Foreign.Anyhow.{Anyhow}

-- The floating-point numbers of the hardware, `f64::from(f32)` and `is_finite`.
pub record Floats : Type 1 where
  pub F32 : Type 0
  pub F64 : Type 0
  pub widen : F32 → F64
  pub is_finite : F64 → Bool

pub record FormattedValue : Type 0 where
  pub value : Text
  pub format : Text

-- A signed number of `w` bits is its pattern below `2 ^ w`; a string is its UTF-8 bytes.
pub data DataType (F32 F64 : Type 0) : Type 0 where
  int32 int64 uint32 uint64 : Option ℕ → DataType F32 F64
  float : Option F32 → DataType F32 F64
  double : Option F64 → DataType F32 F64
  str : Option Text → DataType F32 F64
  boolean : Option Bool → DataType F32 F64
  date time timestamp : Option FormattedValue → DataType F32 F64
  binary : Option Bytes → DataType F32 F64

-- `rusqlite::types::Value`, and `ValueRef`, whose text may be any bytes
pub data Value (F64 : Type 0) : Type 0 where
  null : Value F64
  integer : ℕ → Value F64
  real : F64 → Value F64
  text : Bytes → Value F64
  blob : Bytes → Value F64

-- `i64::from(i32)`: the pattern of the same number in 64 bits
abbrev pub sign_extend : ℕ → ℕ
sign_extend i = if ltb i (2 ^ 31) then i else i + (2 ^ 64 - 2 ^ 32)

-- `i64::from(bool)`
abbrev pub of_bool : Bool → ℕ
of_bool true = 1
of_bool false = 0

module _ (fl : Floats) where
  abbrev pub Data : Type 0
  Data = DataType fl.F32 fl.F64

  unfoldable pub datatype_to_rusqlite_value : Data → Value fl.F64
  datatype_to_rusqlite_value (boolean (some b)) = integer (of_bool b)
  datatype_to_rusqlite_value (int32 (some i)) = integer (sign_extend i)
  datatype_to_rusqlite_value (int64 (some i)) = integer i
  datatype_to_rusqlite_value (uint32 (some u)) = integer u
  datatype_to_rusqlite_value (uint64 (some u)) = integer u
  datatype_to_rusqlite_value (float (some f)) = real (fl.widen f)
  datatype_to_rusqlite_value (double (some f)) = real f
  datatype_to_rusqlite_value (str (some s)) = text s
  datatype_to_rusqlite_value (binary (some b)) = blob b
  datatype_to_rusqlite_value _ = null

  -- `utf8_error` is the error of `from_utf8` at the bytes that it refuses.
  unfoldable pub rusqlite_value_to_datatype :
      (ah : Anyhow) → (Bytes → ah.Error) → Value fl.F64 → Result ah.Error Data
  rusqlite_value_to_datatype ah utf8_error null = ok (str none)
  rusqlite_value_to_datatype ah utf8_error (integer i) = ok (int64 (some i))
  rusqlite_value_to_datatype ah utf8_error (real f) = ok (double (some f))
  rusqlite_value_to_datatype ah utf8_error (text t) =
      if is_utf8 t
      then ok (str (some t))
      else err (ah.context (bytes "invalid UTF-8 in text value") (utf8_error t))
  rusqlite_value_to_datatype ah utf8_error (blob b) = ok (binary (some b))
