-- ===== src/KeyValue/Host/Laws.antt =====
-- What the handlers of `wasi:keyvalue/store` do over a lawful backend
-- (crates/wasi-keyvalue/src/host/store_impl.rs).
use yetti.Base.{
  ℕ, ◌≡◌, ◌≢◌, refl, ◌&&◌, Option, none, some, Text, Bytes, text_eq, ◌==◌, if◌then◌else◌,
}
use yetti.Base.HashMap.{is_some}
use yetti.Base.Lists.{contains}
use yetti.Base.Exec.{ok, err}
use yetti.Foreign.Anyhow.{Anyhow}
use yetti.Foreign.ResourceTable.{ResourceTable}
use yetti.KeyValue.Backend.{Backend, IsLawful}
use yetti.KeyValue.Host.{
  no_such_store, Entry, bucket_proxy, cas, View, drop, as_bucket, get_bucket, call, get, set,
  delete, exists, list_keys, KeyResponse,
}

module _ (ah : Anyhow) (B : Backend ah.Error) (T : ResourceTable (Entry B.Bucket)) where
  -- `self` is a handle of the bucket `b`.
  abbrev pub Names : View ah B T → ℕ → B.Bucket → Type 0
  Names v self b = T.get v.table self ≡ some (bucket_proxy b)

  module _ (L : IsLawful B) (v : View ah B T) (self : ℕ) (b : B.Bucket) (h : Names v self b) where
    pub get_lem : (k : Text) → get ah B T self k v ≡ (ok (L.view v.ctx b k), v)
    unfolding get get_bucket call
    get_lem k = rw h (rw L.get_lem)

    pub exists_lem : (k : Text) → exists ah B T self k v ≡ (ok (is_some (L.view v.ctx b k)), v)
    unfolding exists get_bucket call
    exists_lem k = rw h (rw L.get_lem)

    pub set_lem :
        (k : Text) (x : Bytes)
        → set ah B T self k x v ≡ (ok tt, record v { ctx = (B.set b k x v.ctx).1 })
    unfolding set get_bucket call
    set_lem k x = rw h (rw L.set_ok)

    pub delete_lem :
        (k : Text) → delete ah B T self k v ≡ (ok tt, record v { ctx = (B.delete b k v.ctx).1 })
    unfolding delete get_bucket call
    delete_lem k = rw h (rw L.delete_ok)

    -- A guest that sets a key and then reads through any handle, to the same bucket or another,
    -- finds the new value exactly at the key it set in the buckets that share their contents with
    -- the one it wrote, and the old value everywhere else. Neither call fails.
    pub get-set :
        (other_self : ℕ) (c : B.Bucket)
        → Names v other_self c
        → (k j : Text) (x : Bytes)
        → ((set ah B T self k x v).0 ≡ ok tt)
          × ((get ah B T other_self j (set ah B T self k x v).1).0
              ≡ ok (if L.alias b c && k == j then some x else L.view v.ctx c j))
    unfolding get get_bucket call
    get-set other_self c h' k j x = rw set_lem (refl, rw h' (rw (L.get_lem, L.view-set)))

    -- Deleting a key removes it from the buckets that share their contents with the one it was
    -- deleted from, and leaves every other key of every bucket as it was. Neither call fails.
    get-delete :
        (other_self : ℕ) (c : B.Bucket)
        → Names v other_self c
        → (k j : Text)
        → ((delete ah B T self k v).0 ≡ ok tt)
          × ((get ah B T other_self j (delete ah B T self k v).1).0
              ≡ ok (if L.alias b c && k == j then none else L.view v.ctx c j))
    unfolding get get_bucket call
    get-delete other_self c h' k j = rw delete_lem (refl, rw h' (rw (L.get_lem, L.view-delete)))

    -- Listing the keys changes nothing, returns exactly the keys that have a value, and hands the
    -- caller's cursor back unchanged, with every page the same.
    list_keys_lem :
        (cursor : Option Text)
        → (r : KeyResponse) × (list_keys ah B T self cursor v ≡ (ok r, v))
          × ((k : Text) → contains r.keys k ≡ is_some (L.view v.ctx b k))
          × (r.cursor ≡ cursor)
    unfolding list_keys get_bucket call
    list_keys_lem cursor =
        let (ks, e, m) = L.keys_lem b v.ctx in
        (record { keys = ks; cursor = cursor }, rw h (rw e), m, refl)

  as_bucket_refused :
      (o : Option (Entry B.Bucket))
      → ((b : B.Bucket) → o ≢ some (bucket_proxy b))
      → as_bucket ah B T o ≡ err no_such_store
  unfolding as_bucket
  as_bucket_refused none h = refl
  as_bucket_refused (some (bucket_proxy b)) h = absurd (h b refl)
  as_bucket_refused (some (cas c)) h = refl

  module _ (v : View ah B T) (self : ℕ) (h : (b : B.Bucket) → ¬ Names v self b) where
    get_bucket_refused : get_bucket ah B T self v ≡ (err no_such_store, v)
    unfolding get_bucket
    get_bucket_refused = rw (as_bucket_refused (T.get v.table self) h)

    -- A handle that names no bucket, because it was dropped or is a handle of another kind, is
    -- refused by every handler with `no_such_store`, and nothing changes.
    pub refused :
        (k : Text) (x : Bytes) (cursor : Option Text)
        → (get ah B T self k v ≡ (err no_such_store, v))
          × (set ah B T self k x v ≡ (err no_such_store, v))
          × (delete ah B T self k v ≡ (err no_such_store, v))
          × (exists ah B T self k v ≡ (err no_such_store, v))
          × (list_keys ah B T self cursor v ≡ (err no_such_store, v))
    unfolding get set delete exists list_keys
    refused k x cursor = (
      rw get_bucket_refused,
      rw get_bucket_refused,
      rw get_bucket_refused,
      rw get_bucket_refused,
      rw get_bucket_refused,
    )

  -- After a handle was dropped it names no bucket.
  drop-names :
      (v v' : View ah B T) (self : ℕ)
      → drop ah B T self v ≡ (ok tt, v')
      → (b : B.Bucket) → ¬ Names v' self b
  unfolding drop
  drop-names v v' self e b n =
      let gone : T.delete self v.table ≡ (ok tt, v'.table) = λ i. ((e i).0, (e i).1.table) in
      cc (T.get-delete_self v.table v'.table self gone)
