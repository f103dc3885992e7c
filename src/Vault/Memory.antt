-- ===== src/Vault/Memory.antt =====
-- The default vault: crates/wasi-vault/src/host/default_impl.rs. Every operation holds the lock of the
-- shared store for its whole run, so it is one step on the store.
pub mod Laws
use yetti.Base.{Bool, false, Option, none, some, List, [], Text, Bytes, text_eq}
use yetti.Base.HashMap
use yetti.Base.HashMap.{HashMap, contains_key}
use yetti.Base.Exec.{ok, Exec}
use yetti.KeyValue.Backend.{Backend}

-- What `Arc<RwLock<…>>` guards: the lockers by identifier.
abbrev pub Store : Type 0
Store = HashMap Text (HashMap Text Bytes)

pub record InMemoryLocker : Type 0 where
  pub identifier : Text

-- `VaultDefault::connect_with`
abbrev pub connected : Store
connected = []

-- `store.entry(id).or_default()`: the locker, and the store that has it
or_default : Store → Text → HashMap Text Bytes
or_default s id = elim (HashMap.get s id) [ none ↦ [] | some locker ↦ locker ]

abbrev pub contains_secret : Text → Option (HashMap Text Bytes) → Bool
contains_secret id none = false
contains_secret id (some locker) = contains_key locker id

module _ {Error : Type 0} where
  unfoldable pub open_locker : Text → Exec Store Error InMemoryLocker
  unfolding or_default
  open_locker id s = (ok (record { identifier = id }), HashMap.insert s id (or_default s id))

  unfoldable pub get : InMemoryLocker → Text → Exec Store Error (Option Bytes)
  get self secret_id s = (
    ok (elim (HashMap.get s self.identifier) [
      | some locker ↦ HashMap.get locker secret_id
      | none ↦ none
    ]),
    s,
  )

  unfoldable pub set : InMemoryLocker → Text → Bytes → Exec Store Error (Unit {0})
  unfolding or_default
  set self secret_id value s =
      let locker = or_default s self.identifier in
      (ok tt, HashMap.insert s self.identifier (HashMap.insert locker secret_id value))

  unfoldable pub delete : InMemoryLocker → Text → Exec Store Error (Unit {0})
  delete self secret_id s = elim (HashMap.get s self.identifier) [
    | some locker ↦ (ok tt, HashMap.insert s self.identifier (HashMap.remove locker secret_id))
    | none ↦ (ok tt, s)
  ]

  unfoldable pub exists : InMemoryLocker → Text → Exec Store Error Bool
  exists self secret_id s = (ok (contains_secret secret_id (HashMap.get s self.identifier)), s)

  unfoldable pub list_ids : InMemoryLocker → Exec Store Error (List Text)
  list_ids self s = (
    ok (elim (HashMap.get s self.identifier) [ some locker ↦ HashMap.keys locker | none ↦ [] ]),
    s,
  )

abbrev pub vault : (Error : Type 0) → Backend Error
vault Error = record {
  State = Store;
  Bucket = InMemoryLocker;
  open_bucket = open_locker;
  get = get;
  set = set;
  delete = delete;
  exists = exists;
  keys = list_ids;
}
