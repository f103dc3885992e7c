-- ===== src/Otel/Guest/Convert.antt =====
-- The values and the instants of telemetry: crates/wasi-otel/src/guest/convert.rs.
use yetti.Base.{ℕ, Option, none, some, map}
use yetti.Foreign.OtelSdk
use yetti.Foreign.OtelSdk.{SystemTime}
use yetti.Otel.Values.{
  Floats, Datetime, Value, KeyValue, InstrumentationScope, text, bool, f64, s64, string_array,
  bool_array, f64_array, s64_array,
}

abbrev pub since : Option (ℕ × ℕ) → Datetime
since none = record { seconds = 0; nanoseconds = 0 }
since (some (secs, nanos)) = record { seconds = secs; nanoseconds = nanos }

-- `From<SystemTime> for Datetime`
unfoldable pub datetime : SystemTime → Datetime
datetime st = since st.since_epoch

module _ (F : Floats) where
  abbrev pub array_value : OtelSdk.Array F.F64 → Value F
  array_value (OtelSdk.bools items) = bool_array items
  array_value (OtelSdk.i64s items) = s64_array items
  array_value (OtelSdk.f64s items) = f64_array items
  array_value (OtelSdk.strings items) = string_array items

  -- `From<Value> for wasi::Value`
  unfoldable pub value : OtelSdk.Value F.F64 → Value F
  value (OtelSdk.bool v) = bool v
  value (OtelSdk.i64 v) = s64 v
  value (OtelSdk.f64 v) = f64 v
  value (OtelSdk.string v) = text v
  value (OtelSdk.array v) = array_value v

  -- `From<KeyValue>` and `From<(&Key, &Value)>`
  unfoldable pub key_value : OtelSdk.KeyValue F.F64 → KeyValue F
  unfolding value
  key_value kv = record { key = kv.key; value = value kv.value }

  unfoldable pub instrumentation_scope : OtelSdk.InstrumentationScope F.F64 → InstrumentationScope F
  unfolding key_value
  instrumentation_scope scope = record {
    name = scope.name;
    version = scope.version;
    schema_url = scope.schema_url;
    attributes = map key_value scope.attributes;
  }
