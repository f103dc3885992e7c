-- ===== src/Blobstore/Memory.antt =====
-- The default blob store: crates/wasi-blobstore/src/host/default_impl.rs. The objects of a container are
-- shared by its clones: they are held at an address of a heap.
pub mod Laws
use yetti.Base.{ℕ, suc, Bool, Option, none, some, List, [], ◌∷◌, ◌++◌, Text, Bytes, text_eq, nat_eq}
use yetti.Base.Lists.{bytes, length}
use yetti.Base.HashMap
use yetti.Base.HashMap.{HashMap, contains_key}
use yetti.Base.Exec.{Result, ok, err, Exec}
use yetti.Foreign.Anyhow.{Anyhow}
use yetti.Blobstore.Context.{Context, ContainerMetadata, ObjectMetadata}

abbrev pub Objects : Type 0
Objects = HashMap Text Bytes

-- `objects` is an address; `created_at` counts seconds since the epoch.
pub record InMemContainer : Type 0 where
  pub name : Text
  pub objects : ℕ
  pub created_at : ℕ

-- The containers by name, the objects by address, and the next free address.
pub record Store : Type 0 where
  pub containers : HashMap Text InMemContainer
  pub heap : HashMap ℕ Objects
  pub next : ℕ

-- `BlobstoreDefault::connect_with`
abbrev pub connected : Store
connected = record { containers = []; heap = []; next = 0 }

-- The objects behind an address; one that holds none was never given out.
abbrev or_empty : Option Objects → Objects
or_empty none = []
or_empty (some objects) = objects

unfoldable pub objects_at : Store → ℕ → Objects
objects_at s address = or_empty (HashMap.get s.heap address)

unfoldable pub replace : ℕ → Objects → Store → Store
replace address objects s = record s { heap = HashMap.insert s.heap address objects }

module _ (ah : Anyhow) where
  abbrev pub Run : Type 0 → Type 0
  Run A = Exec Store ah.Error A

  -- `InMemContainer::new`, with its new objects
  unfoldable pub new : Text → ℕ → Store → InMemContainer × Store
  new name created_at s = (
    record { name = name; objects = s.next; created_at = created_at },
    record s { heap = HashMap.insert s.heap s.next []; next = suc s.next },
  )

  unfoldable pub create_container : Text → ℕ → Run InMemContainer
  create_container name now s =
      let (container, s1) = new name now s in
      (ok container, record s1 { containers = HashMap.insert s1.containers name container })

  unfoldable pub get_container : Text → Run InMemContainer
  get_container name s = (
    elim (HashMap.get s.containers name) [
      | none ↦ err (ah.msg (bytes "container not found: " ++ name))
      | some container ↦ ok container
    ],
    s,
  )

  unfoldable pub delete_container : Text → Run (Unit {0})
  delete_container name s = (ok tt, record s { containers = HashMap.remove s.containers name })

  unfoldable pub container_exists : Text → Run Bool
  container_exists name s = (ok (contains_key s.containers name), s)

  unfoldable pub name : InMemContainer → Run Text
  name self s = (ok self.name, s)

  unfoldable pub info : InMemContainer → Run ContainerMetadata
  info self s = (ok (record { name = self.name; created_at = self.created_at }), s)

  unfoldable pub get_data : InMemContainer → Text → ℕ → ℕ → Run (Option Bytes)
  get_data self name _start _end s = (ok (HashMap.get (objects_at s self.objects) name), s)

  unfoldable pub write_data : InMemContainer → Text → Bytes → Run (Unit {0})
  write_data self name content s =
      (ok tt, replace self.objects (HashMap.insert (objects_at s self.objects) name content) s)

  unfoldable pub list_objects : InMemContainer → Run (List Text)
  list_objects self s = (ok (HashMap.keys (objects_at s self.objects)), s)

  unfoldable pub delete_object : InMemContainer → Text → Run (Unit {0})
  delete_object self name s =
      (ok tt, replace self.objects (HashMap.remove (objects_at s self.objects) name) s)

  unfoldable pub has_object : InMemContainer → Text → Run Bool
  has_object self name s = (ok (contains_key (objects_at s self.objects) name), s)

  unfoldable pub object_info : InMemContainer → Text → ℕ → Run ObjectMetadata
  object_info self name now s = (
    elim (HashMap.get (objects_at s self.objects) name) [
      | none ↦ err (ah.msg (bytes "object not found: " ++ name))
      | some content ↦
          ok
            (record { name = name; container = self.name; created_at = now; size = length content })
    ],
    s,
  )

  abbrev pub memory : Context ah
  memory = record {
    State = Store;
    Container = InMemContainer;
    create_container = create_container;
    get_container = get_container;
    delete_container = delete_container;
    container_exists = container_exists;
    name = name;
    info = info;
    get_data = get_data;
    write_data = write_data;
    list_objects = list_objects;
    delete_object = delete_object;
    has_object = has_object;
    object_info = object_info;
  }
