-- ===== src/Otel/Values.antt =====
-- The values of `wasi:otel/types`: crates/wasi-otel/src/host/types_impl.rs, and their conversions to
-- the protocol in metrics_impl.rs. An `i64` is its 64-bit pattern.
pub mod Laws
pub mod Sdk
use yetti.Base.{
  ℕ, ◌+◌, ◌*◌, ◌%◌, ◌^◌, Bool, true, false, ◌&&◌, Option, none, some, List, [], ◌∷◌, ◌++◌, map,
  Text, nat_eq, text_eq, ◌==◌,
}
use yetti.Base.Lists.{bytes, length}
use yetti.Foreign.Opentelemetry

-- `f64`: its `==`, its bits, and the conversions `as` of and to integers. The two zeros are equal and
-- have different bits.
pub record Floats : Type 1 where
  pub F64 : Type 0
  pub eq : F64 → F64 → Bool
  pub to_bits : F64 → ℕ
  pub as_i64 : F64 → ℕ
  pub of_u64 : ℕ → F64
  pub of_i64 : ℕ → F64

pub record Datetime : Type 0 where
  pub seconds : ℕ
  pub nanoseconds : ℕ

-- `From<Datetime> for u64`, in a build without overflow checks
unfoldable pub to_u64 : Datetime → ℕ
to_u64 dt = (dt.seconds * 1000000000 + dt.nanoseconds) % 2 ^ 64

abbrev pub unwrap_or_default : Option Text → Text
unwrap_or_default none = []
unwrap_or_default (some t) = t

module _ (F : Floats) where
  pub data Value : Type 0 where
    text : Text → Value
    bool : Bool → Value
    f64 : F.F64 → Value
    s64 : ℕ → Value
    string_array : List Text → Value
    bool_array : List Bool → Value
    f64_array : List F.F64 → Value
    s64_array : List ℕ → Value

  pub record KeyValue : Type 0 where
    pub key : Text
    pub value : Value

  pub record Resource : Type 0 where
    pub attributes : List KeyValue
    pub schema_url : Option Text

  pub record InstrumentationScope : Type 0 where
    pub name : Text
    pub version : Option Text
    pub schema_url : Option Text
    pub attributes : List KeyValue

  abbrev pub AnyValue : Type 0
  AnyValue = Opentelemetry.AnyValue F.F64

  unfoldable pub array_of : {A : Type 0} → (A → AnyValue) → List A → Opentelemetry.ArrayValue F.F64
  array_of f [] = Opentelemetry.nil
  array_of f (x ∷ xs) = Opentelemetry.cons (f x) (array_of f xs)

  unfoldable pub any_value : Value → AnyValue
  unfolding array_of
  any_value (bool v) = Opentelemetry.bool_value v
  any_value (s64 v) = Opentelemetry.int_value v
  any_value (f64 v) = Opentelemetry.double_value v
  any_value (text v) = Opentelemetry.string_value v
  any_value (bool_array items) =
      Opentelemetry.array_value (array_of (λ v. Opentelemetry.bool_value v) items)
  any_value (s64_array items) =
      Opentelemetry.array_value (array_of (λ v. Opentelemetry.int_value v) items)
  any_value (f64_array items) =
      Opentelemetry.array_value (array_of (λ v. Opentelemetry.double_value v) items)
  any_value (string_array items) =
      Opentelemetry.array_value (array_of (λ v. Opentelemetry.string_value v) items)

  unfoldable pub key_value : KeyValue → Opentelemetry.KeyValue F.F64
  unfolding any_value
  key_value kv = record { key = kv.key; value = some (any_value kv.value) }

  abbrev schema_value : Option Text → Option AnyValue
  schema_value none = none
  schema_value (some url) = some (Opentelemetry.string_value url)

  unfoldable pub resource : Resource → Opentelemetry.Resource F.F64
  unfolding key_value
  resource r = record {
    attributes =
        map key_value r.attributes
        ++ record { key = bytes "schema_url"; value = schema_value r.schema_url } ∷ [];
    dropped_attributes_count = 0;
  }

  unfoldable pub instrumentation_scope :
      InstrumentationScope → Opentelemetry.InstrumentationScope F.F64
  unfolding key_value
  instrumentation_scope s = record {
    name = s.name;
    version = unwrap_or_default s.version;
    attributes = map key_value s.attributes;
    dropped_attributes_count = 0;
  }

  -- `==` on lists and on values
  abbrev pub eq_list : {A : Type 0} → (A → A → Bool) → List A → List A → Bool
  eq_list eq [] [] = true
  eq_list eq [] (y ∷ ys) = false
  eq_list eq (x ∷ xs) [] = false
  eq_list eq (x ∷ xs) (y ∷ ys) = eq x y && eq_list eq xs ys

  eq_bool : Bool → Bool → Bool
  eq_bool true b = b
  eq_bool false true = false
  eq_bool false false = true

  unfoldable pub eq_value : Value → Value → Bool
  unfolding eq_bool
  eq_value (bool a) (bool b) = eq_bool a b
  eq_value (s64 a) (s64 b) = a == b
  eq_value (f64 a) (f64 b) = F.eq a b
  eq_value (text a) (text b) = a == b
  eq_value (bool_array a) (bool_array b) = eq_list eq_bool a b
  eq_value (s64_array a) (s64_array b) = eq_list (λ x y. x == y) a b
  eq_value (f64_array a) (f64_array b) = eq_list F.eq a b
  eq_value (string_array a) (string_array b) = eq_list (λ x y. x == y) a b
  eq_value _ _ = false

  unfoldable pub eq_key_value : KeyValue → KeyValue → Bool
  unfolding eq_value
  eq_key_value a b = a.key == b.key && eq_value a.value b.value

  abbrev eq_option : Option Text → Option Text → Bool
  eq_option none none = true
  eq_option none (some b) = false
  eq_option (some a) none = false
  eq_option (some a) (some b) = a == b

  unfoldable pub eq_scope : InstrumentationScope → InstrumentationScope → Bool
  unfolding eq_key_value
  eq_scope a b =
      a.name == b.name
      && eq_option a.version b.version
      && eq_option a.schema_url b.schema_url
      && eq_list eq_key_value a.attributes b.attributes

  -- What `Hash` feeds to the hasher: integers, lengths, discriminants and texts.
  pub data Write : Type 0 where
    flag : Bool → Write
    integer bits len discriminant : ℕ → Write
    str : Text → Write

  abbrev hash_list : {A : Type 0} → (A → Write) → List A → List Write
  hash_list write items = len (length items) ∷ map write items

  unfoldable pub hash_value : Value → List Write
  hash_value (bool v) = flag v ∷ []
  hash_value (s64 v) = integer v ∷ []
  hash_value (f64 v) = bits (F.to_bits v) ∷ []
  hash_value (text v) = str v ∷ []
  hash_value (bool_array items) = hash_list (λ v. flag v) items
  hash_value (s64_array items) = hash_list (λ v. integer v) items
  hash_value (f64_array items) = hash_list (λ v. integer (F.as_i64 v)) items
  hash_value (string_array items) = hash_list (λ v. str v) items

  unfoldable pub hash_attributes : List KeyValue → List Write
  unfolding hash_value
  hash_attributes [] = []
  hash_attributes (kv ∷ kvs) = (str kv.key ∷ hash_value kv.value) ++ hash_attributes kvs

  abbrev hash_option : Option Text → List Write
  hash_option none = discriminant 0 ∷ []
  hash_option (some t) = discriminant 1 ∷ str t ∷ []

  unfoldable pub hash_scope : InstrumentationScope → List Write
  unfolding hash_attributes
  hash_scope s =
      str s.name ∷ hash_option s.version
      ++ hash_option s.schema_url
      ++ len (length s.attributes) ∷ hash_attributes s.attributes
