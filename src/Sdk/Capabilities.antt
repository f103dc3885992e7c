-- ===== src/Sdk/Capabilities.antt =====
-- The data that a guest reaches through the SDK: crates/qwasr-sdk/src/capabilities.rs, as compiled for
-- a guest. The generated bindings to configuration, messaging and identity are parameters; the state
-- store is the cache of yetti.KeyValue.Cache.
pub mod Laws
use yetti.Base.{ℕ, Option, none, some, List, [], Text, Bytes, ◌++◌}
use yetti.Base.Lists.{bytes}
use yetti.Base.HashMap.{HashMap}
use yetti.Base.Exec.{Result, ok, err, Exec, pure, lift, map_err, continue, ◌>>=◌}
use yetti.Foreign.Anyhow.{Anyhow}
use yetti.KeyValue.Cache
use yetti.KeyValue.Cache.{Env, Failure, error, panic}

pub record Message : Type 0 where
  pub payload : Bytes
  pub headers : HashMap Text Text

-- `Message::new`
abbrev pub new_message : Bytes → Message
new_message payload = record { payload = payload; headers = [] }

-- The bindings, with the errors of each interface as they convert to `anyhow::Error`.
pub record Bindings (ah : Anyhow) : Type 1 where
  pub World : Type 0
  -- `wasi:config/store`
  pub get_config : Text → Exec World ah.Error (Option Text)
  -- `wasi:messaging`
  pub Client : Type 0
  pub WasiMessage : Type 0
  pub connect : Text → Exec World ah.Error Client
  pub new_wasi_message : Bytes → Exec World ah.Error WasiMessage
  pub send : Client → Text → WasiMessage → Exec World ah.Error (Unit {0})
  -- `wasi:identity/credentials`: a token, by the scopes
  pub Identity : Type 0
  pub get_identity : Text → Exec World ah.Error Identity
  pub get_token : Identity → List Text → Exec World ah.Error Text

-- `context`, on the result of a call
abbrev in_context : {S A : Type 0} (ah : Anyhow) → Text → Exec S ah.Error A → Exec S ah.Error A
in_context ah message m s = let (r, s') = m s in (map_err (ah.context message) r, s')

module _ {ah : Anyhow} (B : Bindings ah) where
  abbrev or_missing : Option Text → Result ah.Error Text
  or_missing none = err (ah.msg (bytes "configuration not found"))
  or_missing (some value) = ok value

  -- `Config::get`
  unfoldable pub config : Text → Exec B.World ah.Error Text
  config key = do
    value ← in_context ah (bytes "getting configuration") (B.get_config key)
    lift (or_missing value)

  -- `Publisher::send`
  unfoldable pub publish : Text → Message → Exec B.World ah.Error (Unit {0})
  publish topic message = do
    client ← in_context ah (bytes "connecting to broker") (B.connect (bytes "host"))
    wasi_message ← B.new_wasi_message message.payload
    in_context ah (bytes "sending message to " ++ topic) (B.send client topic wasi_message)

  -- `Identity::access_token`
  unfoldable pub access_token : Text → Exec B.World ah.Error Text
  access_token name = do identity ← B.get_identity name; B.get_token identity []

module _ (env : Env) where
  open env use {ah, store}

  abbrev on_error : (ah.Error → ah.Error) → Failure ah.Error → Failure ah.Error
  on_error f (error e) = error (f e)
  on_error f panic = panic

  abbrev context : {A : Type 0} → Text → Cache.Guest env A → Cache.Guest env A
  context message m s = let (r, s') = m s in (map_err (on_error (ah.context message)) r, s')

  abbrev pub cache_name : Text
  cache_name = bytes "cache"

  -- `StateStore`
  unfoldable pub get : Text → ℕ → Cache.Guest env (Option Bytes)
  get key now = do
    bucket ← context (bytes "opening cache") (Cache.open_cache env cache_name)
    context (bytes "reading state from cache") (Cache.get env bucket key now)

  unfoldable pub set : Text → Bytes → Option ℕ → ℕ → ℕ → Cache.Guest env (Option Bytes)
  set key value ttl_secs created checked = do
    bucket ← context (bytes "opening cache") (Cache.open_cache env cache_name)
    context (bytes "reading state from cache")
        (Cache.set env bucket key value ttl_secs created checked)

  unfoldable pub delete : Text → Cache.Guest env (Unit {0})
  delete key = do
    bucket ← context (bytes "opening cache") (Cache.open_cache env cache_name)
    context (bytes "deleting entry from cache") (Cache.delete env bucket key)
