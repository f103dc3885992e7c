-- ===== src/Tests/Blobstore.antt =====
-- The theorems on `wasi:blobstore` at a container that two handles share.
use yetti.Base.{◌≡◌, refl, false, some, List, [], ◌∷◌, Text, Bytes, nat_eq, text_eq, arith}
use yetti.Base.Lists.{bytes}
use yetti.Base.HashMap
use yetti.Base.HashMap.{is_some}
use yetti.Base.Exec.{ok}
use yetti.Foreign.Anyhow.{chained}
use yetti.Foreign.ResourceTable.{ResourceTable, growing}
use yetti.Blobstore.Memory.{
  InMemContainer, Store, memory, create_container, get_container, get_data, write_data, has_object,
}
use yetti.Blobstore.Memory.Laws.{IsValid, create_container-again}
use yetti.Blobstore.Host
use yetti.Blobstore.Host.{
  Pipes, Entry, container_proxy, incoming_value, outgoing_value, View, clear,
}
use yetti.Blobstore.Host.Laws.{get_data-write_data}

abbrev old : InMemContainer
old = record { name = bytes "c"; objects = 0; created_at = 1 }

abbrev s : Store
s = record {
  containers = (bytes "c", old) ∷ [];
  heap = (0, (bytes "o", 7 ∷ []) ∷ []) ∷ [];
  next = 1;
}

valid : IsValid chained s
unfolding HashMap.get
valid name c h = ground arith

held : HashMap.get s.containers (bytes "c") ≡ some old
unfolding HashMap.get text_eq
held = refl

create_container-again_example :
    (fresh : InMemContainer) × (s1 : Store) × (create_container chained (bytes "c") 9 s
      ≡ (ok fresh, s1))
    × IsValid chained s1
    × ((get_container chained (bytes "c") s1).0 ≡ ok fresh)
    × ((has_object chained fresh (bytes "o") s1).0 ≡ ok false)
    × ((get_data chained old (bytes "o") 0 5 s1).0 ≡ (get_data chained old (bytes "o") 0 5 s).0)
    × ((get_data chained old (bytes "o") 0 5 (write_data chained old (bytes "o") (1 ∷ []) s1).1).0
        ≡ ok (some (1 ∷ [])))
    × ((has_object chained fresh (bytes "o") (write_data chained old (bytes "o") (1 ∷ []) s1).1).0
        ≡ ok false)
create_container-again_example =
    create_container-again chained (bytes "c") (bytes "o") (1 ∷ []) 9 0 5 old s valid held

-- One pipe, whose contents are the state.
abbrev pipes : Pipes
pipes = record { State = Bytes; Pipe = Unit {0}; new = λ n s. (tt, []); contents = λ p s. s }

abbrev T : ResourceTable (Entry InMemContainer (Unit {0}))
T = growing (Entry InMemContainer (Unit {0}))

abbrev table_error : Text → List Text
table_error t = t ∷ []

abbrev V : Type 0
V = View chained (memory chained) pipes T table_error

abbrev v : V
v = record {
  ctx = s;
  pipes = 1 ∷ 2 ∷ 3 ∷ [];
  table = (5, outgoing_value tt) ∷ (4, container_proxy old) ∷ (3, container_proxy old) ∷ [];
}

named : T.get v.table 3 ≡ some (container_proxy old)
unfolding HashMap.get nat_eq
named = refl

read_by : T.get v.table 4 ≡ some (container_proxy old)
unfolding HashMap.get nat_eq
read_by = refl

piped : T.get v.table 5 ≡ some (outgoing_value tt)
unfolding HashMap.get nat_eq
piped = refl

pushed :
    T.push (incoming_value (1 ∷ 2 ∷ 3 ∷ [])) v.table
    ≡ (ok 15, (15, incoming_value (1 ∷ 2 ∷ 3 ∷ [])) ∷ v.table)
unfolding yetti.Foreign.ResourceTable.push_entry yetti.Foreign.ResourceTable.fresh
pushed = refl

get_data-write_data_example :
    (stored : V) × (after : V) × (Host.write_data chained
        (memory chained)
        pipes
        T
        table_error
        3
        (bytes "o")
        5
        v
      ≡ (ok tt, stored))
    × (Host.get_data chained (memory chained) pipes T table_error 4 (bytes "o") 1 2 stored
        ≡ (ok 15, after))
    × (Host.incoming_value_consume_sync chained (memory chained) pipes T table_error 15 after
        ≡ (ok (1 ∷ 2 ∷ 3 ∷ []), after))
get_data-write_data_example =
    get_data-write_data chained pipes T table_error v 3 4 5 15 old old tt (bytes "o") 1 2
      ((15, incoming_value (1 ∷ 2 ∷ 3 ∷ [])) ∷ v.table) named read_by refl piped pushed
