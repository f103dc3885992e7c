-- ===== src/KeyValue/Memory.antt =====
-- The default backend of `wasi:keyvalue`: crates/wasi-keyvalue/src/host/default_impl.rs. Every
-- operation holds the lock of the shared store for its whole run, so it is one step on the store.
pub mod Laws
use yetti.Base.{Bool, false, Option, none, some, List, [], Text, Bytes, text_eq}
use yetti.Base.HashMap
use yetti.Base.HashMap.{HashMap, contains_key}
use yetti.Base.Exec.{ok, Exec}
use yetti.KeyValue.Backend.{Backend}

-- What `Arc<RwLock<…>>` guards: the buckets by name.
abbrev pub Store : Type 0
Store = HashMap Text (HashMap Text Bytes)

pub record InMemBucket : Type 0 where
  pub name : Text

-- `KeyValueDefault::connect_with`
abbrev pub connected : Store
connected = []

-- `store.entry(name).or_default()`
entry_or_default : Store → Text → HashMap Text Bytes
entry_or_default s name = elim (HashMap.get s name) [ none ↦ [] | some bucket ↦ bucket ]

module _ {Error : Type 0} where
  unfoldable pub open_bucket : Text → Exec Store Error InMemBucket
  unfolding entry_or_default
  open_bucket identifier s = (
    ok (record { name = identifier }),
    HashMap.insert s identifier (entry_or_default s identifier),
  )

  unfoldable pub get : InMemBucket → Text → Exec Store Error (Option Bytes)
  get self key s = (
    ok (elim (HashMap.get s self.name) [ none ↦ none | some bucket ↦ HashMap.get bucket key ]),
    s,
  )

  unfoldable pub set : InMemBucket → Text → Bytes → Exec Store Error (Unit {0})
  unfolding entry_or_default
  set self key value s =
      (ok tt, HashMap.insert s self.name (HashMap.insert (entry_or_default s self.name) key value))

  unfoldable pub delete : InMemBucket → Text → Exec Store Error (Unit {0})
  delete self key s = (
    ok tt,
    elim (HashMap.get s self.name) [
      | none ↦ s
      | some bucket ↦ HashMap.insert s self.name (HashMap.remove bucket key)
    ],
  )

  unfoldable pub exists : InMemBucket → Text → Exec Store Error Bool
  exists self key s = (
    ok (elim (HashMap.get s self.name) [ none ↦ false | some bucket ↦ contains_key bucket key ]),
    s,
  )

  unfoldable pub keys : InMemBucket → Exec Store Error (List Text)
  keys self s =
      (ok (elim (HashMap.get s self.name) [ none ↦ [] | some bucket ↦ HashMap.keys bucket ]), s)

abbrev pub memory : (Error : Type 0) → Backend Error
memory Error = record {
  State = Store;
  Bucket = InMemBucket;
  open_bucket = open_bucket;
  get = get;
  set = set;
  delete = delete;
  exists = exists;
  keys = keys;
}
