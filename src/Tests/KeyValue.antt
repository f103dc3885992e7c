-- ===== src/Tests/KeyValue.antt =====
-- The theorems on `wasi:keyvalue` at the default backend with one counter in it.
use yetti.Base.{
  ◌≤◌, ◌+◌, ◌-◌, ◌*◌, ◌/◌, ◌%◌, ◌^◌, ◌≡◌, refl, ◌&&◌, none, some, List, [], ◌∷◌, Text, Bytes,
  text_eq, nat_eq, ◌==◌, leb, if◌then◌else◌, arith,
}
use yetti.Base.Lists.{bytes}
use yetti.Base.HashMap
use yetti.Base.HashMap.{HashMap, is_some}
use yetti.Base.Bits.{to_be_bytes}
use yetti.Base.Exec.{ok, ◌>>=◌}
use yetti.Foreign.Anyhow.{chained}
use yetti.Foreign.ResourceTable.{ResourceTable, growing}
use yetti.Foreign.Envelope.{second, calendar, marked}
use yetti.KeyValue.Backend.{Backend, IsLawful}
use yetti.KeyValue.Memory.{InMemBucket, memory}
use yetti.KeyValue.Memory.Laws.{memory-IsLawful, view, lawful}
use yetti.KeyValue.Host.{
  Error, no_such_store, other, Entry, Cas, cas, bucket_proxy, View, KeyResponse, get, set, delete,
  exists, list_keys,
}
use yetti.KeyValue.Host.Laws.{Names, get-set}
use yetti.KeyValue.Host.Batch.{get_many, set_many}
use yetti.KeyValue.Host.Batch.Laws.{present, written, get_many-set_many}
use yetti.KeyValue.Host.Atomics.{increment, new_cas}
use yetti.KeyValue.Host.Atomics.Laws.{reads_first, increment-increment, increments_lose_update}
use yetti.KeyValue.Cache
use yetti.KeyValue.Cache.{Env}
use yetti.KeyValue.Cache.Laws.{live, get-set_ttl}
use yetti.Sdk.Capabilities
use yetti.Sdk.Capabilities.Laws.{cached, get-set_cached}

abbrev B : Backend (List Text)
B = memory (List Text)

abbrev T : ResourceTable (Entry InMemBucket)
T = growing (Entry InMemBucket)

abbrev L : IsLawful B
L = lawful (List Text)

memory-IsLawful_example : IsLawful (memory (List Text))
memory-IsLawful_example = memory-IsLawful (List Text)

abbrev hits : Text
hits = bytes "hits"

abbrev bucket : InMemBucket
bucket = record { name = bytes "b" }

-- A guest that opened the bucket twice, with a counter at 7.
abbrev v : View chained B T
v = record {
  ctx = (bytes "b", (hits, to_be_bytes 8 7) ∷ []) ∷ [];
  table = (4, bucket_proxy bucket) ∷ (3, bucket_proxy bucket) ∷ [];
}

named : Names chained B T v 3 bucket
unfolding HashMap.get nat_eq
named = refl

named_again : Names chained B T v 4 bucket
unfolding HashMap.get nat_eq
named_again = refl

unnamed : (b : InMemBucket) → ¬ Names chained B T v 5 b
unfolding HashMap.get nat_eq
unnamed b h = cc

counted : L.view v.ctx bucket hits ≡ some (to_be_bytes 8 7)
unfolding view HashMap.get text_eq lawful
counted = refl

get-set_example :
    ((set chained B T 3 hits (1 ∷ []) v).0 ≡ ok tt)
    × ((get chained B T 4 hits (set chained B T 3 hits (1 ∷ []) v).1).0
        ≡ ok (
            if L.alias bucket bucket && hits == hits
            then some (1 ∷ [])
            else L.view v.ctx bucket hits))
get-set_example = get-set chained B T L v 3 bucket named 4 bucket named_again hits hits (1 ∷ [])

abbrev batch : List (Text × Bytes)
batch = (hits, 1 ∷ []) ∷ (bytes "x", 2 ∷ []) ∷ (hits, 3 ∷ []) ∷ []

get_many-set_many_example :
    (get_many chained B T 3 (hits ∷ []) (set_many chained B T 3 batch v).1).0
    ≡ ok (present (λ j. written batch j (L.view v.ctx bucket j)) (hits ∷ []))
get_many-set_many_example = get_many-set_many chained B T L v 3 bucket batch (hits ∷ []) named

increment-increment_example :
    (v' : View chained B T) × ((increment chained B T 3 hits 2 >>= λ _.
    increment chained B T 3 hits (2 ^ 64 - 1))
        v
      ≡ (ok ((7 + 2 + (2 ^ 64 - 1)) % 2 ^ 64), v'))
    × (L.view v'.ctx bucket hits ≡ some (to_be_bytes 8 ((7 + 2 + (2 ^ 64 - 1)) % 2 ^ 64)))
increment-increment_example =
    increment-increment chained B T L v 3 bucket hits 7 2 (2 ^ 64 - 1) named (omega arith) counted

increments_lose_update_example :
    (v' : View chained B T) × (reads_first chained B T L bucket hits 2 5 v
      ≡ (ok ((7 + 2) % 2 ^ 64, (7 + 5) % 2 ^ 64), v'))
    × (L.view v'.ctx bucket hits ≡ some (to_be_bytes 8 ((7 + 5) % 2 ^ 64)))
increments_lose_update_example =
    increments_lose_update chained B T L v bucket hits 7 2 5 (omega arith) counted

missing : L.view v.ctx bucket (bytes "x") ≡ none
unfolding view HashMap.get text_eq lawful
missing = refl

-- A handle for compare-and-swap on the counter.
abbrev v1 : View chained B T
v1 = record v {
  table = (9, cas (record { key = hits; current = some (to_be_bytes 8 7) })) ∷ v.table;
}

made : new_cas chained B T 3 hits v ≡ (ok 9, v1)
unfolding new_cas yetti.KeyValue.Host.get_bucket HashMap.get nat_eq yetti.KeyValue.Host.call
    yetti.KeyValue.Memory.get yetti.KeyValue.Host.push yetti.Foreign.ResourceTable.push_entry
    yetti.Foreign.ResourceTable.fresh text_eq
made = refl

abbrev env : Env
env = record {
  ah = chained;
  chrono = calendar;
  json = marked;
  StoreError = List Text;
  from_error = λ e. e;
  store = B;
}

-- A value of one byte, set at 1.5 s for 2 s.
abbrev sealed : Bytes
sealed = 123 ∷ 3 ∷ 1 ∷ []

in_range : 1500000000 + 2 * second ≤ calendar.max_time
unfolding calendar
in_range = omega arith

encoded : marked.to_vec (1 ∷ []) ((1500000000 + 2 * second) / second) ≡ ok sealed
unfolding marked
encoded = refl

get-set_ttl_example :
    ((Cache.set env bucket hits (1 ∷ []) (some 2) 1500000000 1500000000 v.ctx).0
      ≡ ok (live env L 1500000000 (L.view v.ctx bucket hits)))
    × ((Cache.get env bucket hits 3000000000
          (Cache.set env bucket hits (1 ∷ []) (some 2) 1500000000 1500000000 v.ctx).1).0
        ≡ ok (
            if L.alias bucket bucket && hits == hits
            then (if leb ((1500000000 + 2 * second) / second * second) 3000000000
                then none
                else some (1 ∷ []))
            else live env L 3000000000 (L.view v.ctx bucket hits)))
get-set_ttl_example =
    get-set_ttl env L bucket hits (1 ∷ []) sealed 2 1500000000 1500000000 v.ctx in_range encoded
      bucket hits 3000000000 (omega arith)

decodes : marked.from_slice (123 ∷ 0 ∷ 9 ∷ []) ≡ ok (9 ∷ [], 0)
unfolding marked
decodes = refl

get-set_cached_example :
    ((Capabilities.set env hits (1 ∷ []) (some 2) 1500000000 1500000000 v.ctx).0
      ≡ ok (live env L 1500000000 (L.view v.ctx (cached env L) hits)))
    × ((Capabilities.get env hits 3000000000
          (Capabilities.set env hits (1 ∷ []) (some 2) 1500000000 1500000000 v.ctx).1).0
        ≡ ok (
            if hits == hits
            then (if leb ((1500000000 + 2 * second) / second * second) 3000000000
                then none
                else some (1 ∷ []))
            else live env L 3000000000 (L.view v.ctx (cached env L) hits)))
get-set_cached_example =
    get-set_cached env L hits (1 ∷ []) sealed 2 1500000000 1500000000 v.ctx in_range encoded hits
      3000000000 (omega arith)
