-- ===== src/Sql/Json/Laws.antt =====
-- What the guest's JSON keeps of the rows, and of values that are converted to SQLite's and back
-- (crates/wasi-sql/src/guest.rs and host/default_impl.rs).
use yetti.Base.{
  ℕ, ◌^◌, ◌<◌, ◌≡◌, refl, ◌∙◌, true, Option, none, some, List, [], ◌∷◌, Text, Bytes, text_eq, ◌==◌,
  if◌then◌else◌, arith, Bool-cases, inl, inr,
}
use yetti.Base.HashMap
use yetti.Base.HashMap.{get-insert}
use yetti.Base.Utf8.{is_utf8}
use yetti.Base.Exec.{Result, ok, err}
use yetti.Foreign.Anyhow.{Anyhow}
use yetti.Sql.Value.{
  Floats, FormattedValue, Data, int32, int64, uint32, uint64, float, double, str, boolean, date,
  time, timestamp, binary, sign_extend, datatype_to_rusqlite_value, rusqlite_value_to_datatype,
  Value, null, integer, real, text, blob,
}
use yetti.Sql.Json.{Field, Row, Scalar, json_value, of_signed, insert_fields, into_json}

was-ok : {E A : Type 0} (a b : A) → ◌≡◌ {A = Result E A} (ok a) (ok b) → a ≡ b
was-ok a b h = cc

refused : {E A P : Type 0} (e : E) (a : A) → ◌≡◌ {A = Result E A} (err e) (ok a) → P
refused e a h = cc

module _ (fl : Floats) (encode_string : Bytes → Text) (ah : Anyhow)
    (utf8_error : Bytes → ah.Error) where
  -- The values that come back as they were: no truth value, no date or time, and
  -- numbers, strings in the range of their types, unsigned numbers below 2 ^ 63.
  abbrev pub IsKept : Data fl → Type 0
  IsKept (int32 (some i)) = i < 2 ^ 32
  IsKept (int64 (some i)) = i < 2 ^ 64
  IsKept (uint32 (some u)) = u < 2 ^ 32
  IsKept (uint64 (some u)) = u < 2 ^ 63
  IsKept (str (some s)) = is_utf8 s ≡ true
  IsKept (boolean (some b)) = ⊥
  IsKept (date (some d)) = ⊥
  IsKept (time (some d)) = ⊥
  IsKept (timestamp (some d)) = ⊥
  IsKept _ = Unit

  signed-sign_extend :
      (i : ℕ)
      → i < 2 ^ 32
      → of_signed fl encode_string 64 (sign_extend i) ≡ of_signed fl encode_string 32 i
  signed-sign_extend i h = ground arith

  -- A value that is converted to SQLite's and back has the same JSON as before.
  pub json-stored :
      (d : Data fl)
      → IsKept d
      → (r : Data fl) × (rusqlite_value_to_datatype fl ah utf8_error
            (datatype_to_rusqlite_value fl d)
          ≡ ok r)
        × (json_value fl encode_string r ≡ json_value fl encode_string d)
  unfolding rusqlite_value_to_datatype datatype_to_rusqlite_value json_value
  json-stored (int32 (some i)) h = (int64 (some (sign_extend i)), refl, signed-sign_extend i h)
  json-stored (int64 (some i)) h = (int64 (some i), refl, refl)
  json-stored (uint32 (some u)) h = (int64 (some u), refl, ground arith)
  json-stored (uint64 (some u)) h = (int64 (some u), refl, ground arith)
  json-stored (float (some f)) h = (double (some (fl.widen f)), refl, refl)
  json-stored (double (some f)) h = (double (some f), refl, refl)
  json-stored (str (some s)) h = (str (some s), rw h, refl)
  json-stored (binary (some b)) h = (binary (some b), refl, refl)
  json-stored (boolean (some b)) h = absurd h
  json-stored (date (some d)) h = absurd h
  json-stored (time (some d)) h = absurd h
  json-stored (timestamp (some d)) h = absurd h
  json-stored (int32 none) h = (str none, refl, refl)
  json-stored (int64 none) h = (str none, refl, refl)
  json-stored (uint32 none) h = (str none, refl, refl)
  json-stored (uint64 none) h = (str none, refl, refl)
  json-stored (float none) h = (str none, refl, refl)
  json-stored (double none) h = (str none, refl, refl)
  json-stored (str none) h = (str none, refl, refl)
  json-stored (boolean none) h = (str none, refl, refl)
  json-stored (date none) h = (str none, refl, refl)
  json-stored (time none) h = (str none, refl, refl)
  json-stored (timestamp none) h = (str none, refl, refl)
  json-stored (binary none) h = (str none, refl, refl)

  -- A value read from the database goes back into it as the same value.
  stored-read :
      (v : Value fl.F64) (d : Data fl)
      → rusqlite_value_to_datatype fl ah utf8_error v ≡ ok d
      → datatype_to_rusqlite_value fl d ≡ v
  unfolding rusqlite_value_to_datatype datatype_to_rusqlite_value
  stored-read null d h = rw (← was-ok _ d h)
  stored-read (integer i) d h = rw (← was-ok _ d h)
  stored-read (real f) d h = rw (← was-ok _ d h)
  stored-read (blob b) d h = rw (← was-ok _ d h)
  stored-read (text t) d h = elim (Bool-cases (is_utf8 t)) [
    | inl valid ↦ rw (← was-ok _ d (rw valid at h))
    | inr broken ↦ refused _ d (rw broken at h)
  ]

  -- Dates, times and timestamps do not survive the conversions: whatever they hold, they become NULL,
  -- and that an absent string.
  dates_lost :
      (o : Option FormattedValue)
      → (rusqlite_value_to_datatype fl ah utf8_error (datatype_to_rusqlite_value fl (date o))
          ≡ ok (str none))
        × (rusqlite_value_to_datatype fl ah utf8_error (datatype_to_rusqlite_value fl (time o))
            ≡ ok (str none))
        × (rusqlite_value_to_datatype fl ah utf8_error (datatype_to_rusqlite_value fl (timestamp o))
            ≡ ok (str none))
  unfolding rusqlite_value_to_datatype datatype_to_rusqlite_value
  dates_lost o = (refl, refl, refl)

  -- The value of the last field of a name, as JSON, and behind them all what was there before.
  abbrev pub last_value :
      List (Field (Data fl)) → Text → Option (Scalar fl.F64) → Option (Scalar fl.F64)
  last_value [] j old = old
  last_value (f ∷ fs) j old =
      last_value fs j (if f.name == j then some (json_value fl encode_string f.value) else old)

  insert_fields_lem :
      (m : HashMap.HashMap Text (Scalar fl.F64)) (fs : List (Field (Data fl))) (j : Text)
      → HashMap.get (insert_fields fl encode_string m fs) j ≡ last_value fs j (HashMap.get m j)
  unfolding insert_fields
  insert_fields_lem m [] j = refl
  insert_fields_lem m (f ∷ fs) j =
      insert_fields_lem (HashMap.insert m f.name (json_value fl encode_string f.value)) fs j
      ∙ rw get-insert

  -- The objects of some rows: one for each row, in their order, with the last value of each name.
  abbrev pub Objects : List (Row (Data fl)) → List (HashMap.HashMap Text (Scalar fl.F64)) → Type 0
  Objects [] [] = Unit
  Objects (r ∷ rs) (m ∷ ms) =
      ((j : Text) → HashMap.get m j ≡ last_value r.fields j none) × Objects rs ms
  Objects _ _ = ⊥

  -- The JSON of a result is one object for each row, in the order of the rows, that maps each column
  -- to its value: of several columns with one name only the last is kept.
  into_json-Objects : (rs : List (Row (Data fl))) → Objects rs (into_json fl encode_string rs)
  unfolding into_json HashMap.get
  into_json-Objects [] = tt
  into_json-Objects (r ∷ rs) = (λ j. insert_fields_lem [] r.fields j, into_json-Objects rs)
