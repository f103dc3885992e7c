-- ===== src/Otel/Values/Sdk.antt =====
-- The host's conversions between the values of `wasi:otel/types` and those of the crate
-- `opentelemetry`: crates/wasi-otel/src/host/types_impl.rs.
use yetti.Base.{◌≡◌, refl, List, [], ◌∷◌, map}
use yetti.Foreign.OtelSdk
use yetti.Otel.Values.{
  Floats, Value, KeyValue, Resource, InstrumentationScope, text, bool, f64, s64, string_array,
  bool_array, f64_array, s64_array,
}

module _ (F : Floats) where
  abbrev array : OtelSdk.Array F.F64 → Value F
  array (OtelSdk.bools items) = bool_array items
  array (OtelSdk.i64s items) = s64_array items
  array (OtelSdk.f64s items) = f64_array items
  array (OtelSdk.strings items) = string_array items

  -- `From<Value> for types::Value`
  unfoldable pub of_value : OtelSdk.Value F.F64 → Value F
  of_value (OtelSdk.bool v) = bool v
  of_value (OtelSdk.i64 v) = s64 v
  of_value (OtelSdk.f64 v) = f64 v
  of_value (OtelSdk.string v) = text v
  of_value (OtelSdk.array v) = array v

  -- `From<(&Key, &Value)> for types::KeyValue`
  unfoldable pub of_key_value : OtelSdk.KeyValue F.F64 → KeyValue F
  unfolding of_value
  of_key_value kv = record { key = kv.key; value = of_value kv.value }

  -- `From<&Resource> for types::Resource`
  unfoldable pub of_resource : OtelSdk.Resource F.F64 → Resource F
  unfolding of_key_value
  of_resource r = record { attributes = map of_key_value r.attributes; schema_url = r.schema_url }

  -- `From<types::Value> for Value`
  unfoldable pub to_value : Value F → OtelSdk.Value F.F64
  to_value (bool v) = OtelSdk.bool v
  to_value (s64 v) = OtelSdk.i64 v
  to_value (f64 v) = OtelSdk.f64 v
  to_value (text v) = OtelSdk.string v
  to_value (bool_array items) = OtelSdk.array (OtelSdk.bools items)
  to_value (s64_array items) = OtelSdk.array (OtelSdk.i64s items)
  to_value (f64_array items) = OtelSdk.array (OtelSdk.f64s items)
  to_value (string_array items) = OtelSdk.array (OtelSdk.strings items)

  -- `From<types::KeyValue> for KeyValue`
  unfoldable pub to_key_value : KeyValue F → OtelSdk.KeyValue F.F64
  unfolding to_value
  to_key_value kv = record { key = kv.key; value = to_value kv.value }

  -- `From<types::InstrumentationScope>`; the builder keeps what it is given
  unfoldable pub to_scope : InstrumentationScope F → OtelSdk.InstrumentationScope F.F64
  unfolding to_key_value
  to_scope scope = record {
    name = scope.name;
    version = scope.version;
    schema_url = scope.schema_url;
    attributes = map to_key_value scope.attributes;
  }

  to_value-of_value : (v : OtelSdk.Value F.F64) → to_value (of_value v) ≡ v
  unfolding to_value of_value
  to_value-of_value (OtelSdk.bool v) = refl
  to_value-of_value (OtelSdk.i64 v) = refl
  to_value-of_value (OtelSdk.f64 v) = refl
  to_value-of_value (OtelSdk.string v) = refl
  to_value-of_value (OtelSdk.array (OtelSdk.bools items)) = refl
  to_value-of_value (OtelSdk.array (OtelSdk.i64s items)) = refl
  to_value-of_value (OtelSdk.array (OtelSdk.f64s items)) = refl
  to_value-of_value (OtelSdk.array (OtelSdk.strings items)) = refl

  of_value-to_value : (v : Value F) → of_value (to_value v) ≡ v
  unfolding to_value of_value
  of_value-to_value (bool v) = refl
  of_value-to_value (s64 v) = refl
  of_value-to_value (f64 v) = refl
  of_value-to_value (text v) = refl
  of_value-to_value (bool_array items) = refl
  of_value-to_value (s64_array items) = refl
  of_value-to_value (f64_array items) = refl
  of_value-to_value (string_array items) = refl

  -- Attributes of one library are those of the other, each way and back.
  to_key_value-of_key_value :
      (kvs : List (OtelSdk.KeyValue F.F64)) → map to_key_value (map of_key_value kvs) ≡ kvs
  unfolding to_key_value of_key_value
  to_key_value-of_key_value [] = refl
  to_key_value-of_key_value (kv ∷ kvs) =
      rw (to_value-of_value kv.value, to_key_value-of_key_value kvs)

  of_key_value-to_key_value :
      (kvs : List (KeyValue F)) → map of_key_value (map to_key_value kvs) ≡ kvs
  unfolding to_key_value of_key_value
  of_key_value-to_key_value [] = refl
  of_key_value-to_key_value (kv ∷ kvs) =
      rw (of_value-to_value kv.value, of_key_value-to_key_value kvs)
