-- ===== src/KeyValue/Host/Batch.antt =====
-- The handlers of `wasi:keyvalue/batch`: crates/wasi-keyvalue/src/host/batch_impl.rs.
pub mod Laws
use yetti.Base.{ℕ, Option, none, some, List, [], ◌∷◌, Text, Bytes, ◌++◌}
use yetti.Base.Lists.{bytes}
use yetti.Base.Exec.{Exec, pure, continue, ◌>>=◌, ◌>>◌}
use yetti.Foreign.Anyhow.{Anyhow}
use yetti.Foreign.ResourceTable.{ResourceTable}
use yetti.KeyValue.Backend.{Backend}
use yetti.KeyValue.Host.{Entry, View, Handler, call, get_bucket}

-- `if let Some(value) = … { many.push(Some((key, value))) }`
abbrev pub push_found :
    List (Option (Text × Bytes)) → Text → Option Bytes → List (Option (Text × Bytes))
push_found many key none = many
push_found many key (some value) = many ++ some (key, value) ∷ []

module _ (ah : Anyhow) (B : Backend ah.Error) (T : ResourceTable (Entry B.Bucket)) where
  -- The loop of `get_many`, with the list built so far.
  unfoldable pub get_each :
      B.Bucket
      → List Text
      → List (Option (Text × Bytes))
      → Handler ah B T (List (Option (Text × Bytes)))
  get_each bucket [] many = pure many
  get_each bucket (key ∷ keys) many = do
    value ← call ah B T (λ e. e) (B.get bucket key)
    get_each bucket keys (push_found many key value)

  unfoldable pub get_many : ℕ → List Text → Handler ah B T (List (Option (Text × Bytes)))
  get_many self keys = do bucket ← get_bucket ah B T self; get_each bucket keys []

  unfoldable pub set_each : B.Bucket → List (Text × Bytes) → Handler ah B T (Unit {0})
  set_each bucket [] = pure tt
  set_each bucket ((key, value) ∷ key_values) = do
    call ah B T (λ e. e) (B.set bucket key value)
    set_each bucket key_values

  unfoldable pub set_many : ℕ → List (Text × Bytes) → Handler ah B T (Unit {0})
  set_many self key_values = do bucket ← get_bucket ah B T self; set_each bucket key_values

  unfoldable pub delete_each : B.Bucket → List Text → Handler ah B T (Unit {0})
  delete_each bucket [] = pure tt
  delete_each bucket (key ∷ keys) = do
    call ah B T (λ e. ah.msg (bytes "issue deleting value: " ++ ah.to_string e))
        (B.delete bucket key)
    delete_each bucket keys

  unfoldable pub delete_many : ℕ → List Text → Handler ah B T (Unit {0})
  delete_many self keys = do bucket ← get_bucket ah B T self; delete_each bucket keys
