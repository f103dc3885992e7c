-- ===== src/Otel/Values/Laws.antt =====
-- The values of `wasi:otel/types` and their conversions (crates/wasi-otel/src/host).
use yetti.Base.{
  ℕ, ◌+◌, ◌*◌, ◌/◌, ◌%◌, ◌≤◌, ◌<◌, ◌≡◌, refl, ◌≢◌, Bool, true, Option, none, some, List, [], ◌∷◌,
  arith, Text, nat_eq, text_eq,
}
use yetti.Foreign.Opentelemetry.{
  AnyValue, ArrayValue, absent, bool_value, int_value, double_value, string_value, array_value, nil,
  cons,
}
use yetti.Otel.Values.{
  Floats, Datetime, to_u64, Value, InstrumentationScope, text, bool, f64, s64, string_array,
  bool_array, f64_array, s64_array, array_of, any_value, eq_scope, hash_scope,
}

-- Up to the year 2554 an instant is its number of nanoseconds, from which its seconds and its
-- nanoseconds are read back.
pub to_u64_bounds :
    (dt : Datetime)
    → dt.nanoseconds < 1000000000
    → dt.seconds ≤ 18446744072
    → (to_u64 dt / 1000000000 ≡ dt.seconds) × (to_u64 dt % 1000000000 ≡ dt.nanoseconds)
unfolding to_u64
to_u64_bounds dt h k = omega arith

-- From two seconds later on the multiplication overflows.
to_u64_wraps :
    (dt : Datetime)
    → 18446744074 ≤ dt.seconds
    → to_u64 dt < dt.seconds * 1000000000 + dt.nanoseconds
unfolding to_u64
to_u64_wraps dt h = omega arith

module _ (F : Floats) where
  -- The decoding of a value by its kind, that of an array by its first element.
  items_of : {A : Type 0} → (AnyValue F.F64 → Option A) → ArrayValue F.F64 → Option (List A)
  items_of f nil = some []
  items_of f (cons x xs) = elim (f x) [
    | none ↦ none
    | some a ↦ elim (items_of f xs) [ none ↦ none | some as' ↦ some (a ∷ as') ]
  ]

  as_bool : AnyValue F.F64 → Option Bool
  as_bool (bool_value b) = some b
  as_bool _ = none

  as_int : AnyValue F.F64 → Option ℕ
  as_int (int_value n) = some n
  as_int _ = none

  as_double : AnyValue F.F64 → Option F.F64
  as_double (double_value x) = some x
  as_double _ = none

  as_string : AnyValue F.F64 → Option Text
  as_string (string_value t) = some t
  as_string _ = none

  abbrev lift_list : {A : Type 0} → (List A → Value F) → Option (List A) → Option (Value F)
  lift_list f none = none
  lift_list f (some xs) = some (f xs)

  array_kind : ArrayValue F.F64 → Option (Value F)
  unfolding items_of
  array_kind nil = none
  array_kind (cons absent xs) = none
  array_kind (cons (bool_value b) xs) =
      lift_list (λ l. bool_array l) (items_of as_bool (cons (bool_value b) xs))
  array_kind (cons (int_value n) xs) =
      lift_list (λ l. s64_array l) (items_of as_int (cons (int_value n) xs))
  array_kind (cons (double_value x) xs) =
      lift_list (λ l. f64_array l) (items_of as_double (cons (double_value x) xs))
  array_kind (cons (string_value t) xs) =
      lift_list (λ l. string_array l) (items_of as_string (cons (string_value t) xs))
  array_kind (cons (array_value a) xs) = none

  pub decode_value : AnyValue F.F64 → Option (Value F)
  unfolding array_kind as_bool as_int as_double as_string
  decode_value absent = none
  decode_value (bool_value b) = some (bool b)
  decode_value (int_value n) = some (s64 n)
  decode_value (double_value x) = some (f64 x)
  decode_value (string_value t) = some (text t)
  decode_value (array_value a) = array_kind a

  abbrev pub HasKind : Value F → Type 0
  HasKind (string_array xs) = xs ≢ []
  HasKind (bool_array xs) = xs ≢ []
  HasKind (f64_array xs) = xs ≢ []
  HasKind (s64_array xs) = xs ≢ []
  HasKind _ = Unit

  items_of-array_of :
      {A : Type 0} (f : A → AnyValue F.F64) (g : AnyValue F.F64 → Option A) (xs : List A)
      → ((x : A) → g (f x) ≡ some x)
      → items_of g (array_of F f xs) ≡ some xs
  unfolding items_of array_of
  items_of-array_of f g [] h = refl
  items_of-array_of f g (x ∷ xs) h = rw (h x, items_of-array_of f g xs h)

  -- A value is read back from the message that it is converted to, unless it is an empty array, of
  -- which the message does not show the kind.
  pub decode_value-any_value : (v : Value F) → HasKind v → decode_value (any_value F v) ≡ some v
  unfolding decode_value any_value
  decode_value-any_value (text t) h = refl
  decode_value-any_value (bool b) h = refl
  decode_value-any_value (f64 x) h = refl
  decode_value-any_value (s64 n) h = refl
  decode_value-any_value (string_array []) h = absurd (h refl)
  decode_value-any_value (string_array (x ∷ xs)) h =
      rw (items_of-array_of (λ v. string_value v) as_string (x ∷ xs) (λ y. refl))
  decode_value-any_value (bool_array []) h = absurd (h refl)
  decode_value-any_value (bool_array (x ∷ xs)) h =
      rw (items_of-array_of (λ v. bool_value v) as_bool (x ∷ xs) (λ y. refl))
  decode_value-any_value (f64_array []) h = absurd (h refl)
  decode_value-any_value (f64_array (x ∷ xs)) h =
      rw (items_of-array_of (λ v. double_value v) as_double (x ∷ xs) (λ y. refl))
  decode_value-any_value (s64_array []) h = absurd (h refl)
  decode_value-any_value (s64_array (x ∷ xs)) h =
      rw (items_of-array_of (λ v. int_value v) as_int (x ∷ xs) (λ y. refl))

  -- A scope whose one attribute is a float.
  abbrev pub with_float : Text → F.F64 → InstrumentationScope F
  with_float name x = record {
    name = name;
    version = none;
    schema_url = none;
    attributes = record { key = name; value = f64 x } ∷ [];
  }

  -- Scopes that are equal by `==` can feed different values to a hasher, and a map may keep them
  -- apart: so it is for a float attribute with two equal values of different bits, as the two zeros.
  pub eq_scope-hash_scope :
      (name : Text) (x y : F.F64)
      → F.eq x y ≡ true
      → F.to_bits x ≢ F.to_bits y
      → (eq_scope F (with_float name x) (with_float name y) ≡ true)
        × (hash_scope F (with_float name x) ≢ hash_scope F (with_float name y))
  unfolding eq_scope hash_scope text_eq
  eq_scope-hash_scope name x y h n = (ground (arith, h), λ e. n (cc))
