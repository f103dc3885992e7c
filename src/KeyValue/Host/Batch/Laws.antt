-- ===== src/KeyValue/Host/Batch/Laws.antt =====
-- What the batch handlers do over a lawful backend (crates/wasi-keyvalue/src/host/batch_impl.rs),
-- against plain descriptions of the keys found, written and removed.
use mathlib.Core.List.{append-nil, append_assoc}
use mathlib.Core.Path.{fun_ext}
use yetti.Base.{
  ℕ, ◌≡◌, refl, ap, ◌∙◌, ◌&&◌, Option, none, some, List, [], ◌∷◌, ◌++◌, Text, Bytes, text_eq, ◌==◌,
  if◌then◌else◌, arith,
}
use yetti.Base.Lists.{contains}
use yetti.Base.Exec.{ok}
use yetti.Foreign.Anyhow.{Anyhow}
use yetti.Foreign.ResourceTable.{ResourceTable}
use yetti.KeyValue.Backend.{Backend, IsLawful}
use yetti.KeyValue.Host.{Entry, View, get_bucket, call}
use yetti.KeyValue.Host.Laws.{Names}
use yetti.KeyValue.Host.Batch.{
  push_found, get_each, get_many, set_each, set_many, delete_each, delete_many,
}

-- The pairs of the keys that have a value, in the order of the keys.
abbrev pub present : (Text → Option Bytes) → List Text → List (Option (Text × Bytes))
present look [] = []
present look (key ∷ keys) = push_found [] key (look key) ++ present look keys

-- The value of a key after the pairs are written in order, from its value before.
abbrev pub written : List (Text × Bytes) → Text → Option Bytes → Option Bytes
written [] j old = old
written ((k, x) ∷ kxs) j old = written kxs j (if k == j then some x else old)

push_found-append :
    (many : List (Option (Text × Bytes))) (key : Text) (o : Option Bytes)
    → push_found many key o ≡ many ++ push_found [] key o
push_found-append many key none = rw append-nil
push_found-append many key (some x) = refl

module _ (ah : Anyhow) (B : Backend ah.Error) (T : ResourceTable (Entry B.Bucket))
    (L : IsLawful B) where
  get_each_lem :
      (v : View ah B T) (b : B.Bucket) (keys : List Text) (many : List (Option (Text × Bytes)))
      → get_each ah B T b keys many v ≡ (ok (many ++ present (L.view v.ctx b) keys), v)
  unfolding get_each call
  get_each_lem v b [] many = rw append-nil
  get_each_lem v b (key ∷ keys) many = rw L.get_lem (
      rw (get_each_lem v b keys (push_found many key (L.view v.ctx b key)))
        (rw (push_found-append many key (L.view v.ctx b key)) (simp append_assoc)))

  -- `get_many` returns the pairs of the keys that have a value, in the order in which they were
  -- asked for, leaves out the others, and changes nothing.
  get_many_lem :
      (v : View ah B T) (self : ℕ) (b : B.Bucket) (keys : List Text)
      → Names ah B T v self b
      → get_many ah B T self keys v ≡ (ok (present (L.view v.ctx b) keys), v)
  unfolding get_many get_bucket
  get_many_lem v self b keys h = rw h (get_each_lem v b keys [])

  set_each_lem :
      (v : View ah B T) (b : B.Bucket) (kxs : List (Text × Bytes)) (c : B.Bucket) (j : Text)
      → ((set_each ah B T b kxs v).0 ≡ ok tt)
        × ((set_each ah B T b kxs v).1.table ≡ v.table)
        × (L.view (set_each ah B T b kxs v).1.ctx c j
            ≡ (if L.alias b c then written kxs j (L.view v.ctx c j) else L.view v.ctx c j))
  unfolding set_each call
  set_each_lem v b [] c j = (refl, refl, ground arith)
  set_each_lem v b ((k, x) ∷ kxs) c j =
      let (r, t, e) = set_each_lem (record v { ctx = (B.set b k x v.ctx).1 }) b kxs c j in
      rw L.set_ok (r, t, e ∙ rw L.view-set (ground arith))

  -- `set_many` succeeds, and leaves each key of a bucket that shares its contents with the named one
  -- at the last value that the pairs give it, or as it was if no pair does; other buckets stay.
  set_many_lem :
      (v : View ah B T) (self : ℕ) (b : B.Bucket) (kxs : List (Text × Bytes))
      → Names ah B T v self b
      → (c : B.Bucket) (j : Text)
      → ((set_many ah B T self kxs v).0 ≡ ok tt)
        × (L.view (set_many ah B T self kxs v).1.ctx c j
            ≡ (if L.alias b c then written kxs j (L.view v.ctx c j) else L.view v.ctx c j))
  unfolding set_many get_bucket
  set_many_lem v self b kxs h c j = let (r, _, e) = set_each_lem v b kxs c j in rw h (r, e)

  delete_each_lem :
      (v : View ah B T) (b : B.Bucket) (keys : List Text) (c : B.Bucket) (j : Text)
      → ((delete_each ah B T b keys v).0 ≡ ok tt)
        × ((delete_each ah B T b keys v).1.table ≡ v.table)
        × (L.view (delete_each ah B T b keys v).1.ctx c j
            ≡ (if L.alias b c && contains keys j then none else L.view v.ctx c j))
  unfolding delete_each call
  delete_each_lem v b [] c j = (refl, refl, ground arith)
  delete_each_lem v b (k ∷ keys) c j =
      let (r, t, e) = delete_each_lem (record v { ctx = (B.delete b k v.ctx).1 }) b keys c j in
      rw L.delete_ok (r, t, e ∙ rw L.view-delete (ground arith))

  -- `delete_many` succeeds, and removes exactly the listed keys, from the buckets that share their
  -- contents with the named one.
  delete_many_lem :
      (v : View ah B T) (self : ℕ) (b : B.Bucket) (keys : List Text)
      → Names ah B T v self b
      → (c : B.Bucket) (j : Text)
      → ((delete_many ah B T self keys v).0 ≡ ok tt)
        × (L.view (delete_many ah B T self keys v).1.ctx c j
            ≡ (if L.alias b c && contains keys j then none else L.view v.ctx c j))
  unfolding delete_many get_bucket
  delete_many_lem v self b keys h c j = let (r, _, e) = delete_each_lem v b keys c j in rw h (r, e)

  -- Over any lawful backend, after `set_many`, a `get_many` through the same handle returns, in the
  -- order of the keys, each key that has a value, with the value that was written last, or the old
  -- one if none was. A key with no value is left out of the result, where the interface promises
  -- `none` in its place.
  pub get_many-set_many :
      (v : View ah B T) (self : ℕ) (b : B.Bucket) (kxs : List (Text × Bytes)) (keys : List Text)
      → Names ah B T v self b
      → (get_many ah B T self keys (set_many ah B T self kxs v).1).0
        ≡ ok (present (λ j. written kxs j (L.view v.ctx b j)) keys)
  unfolding set_many get_bucket
  get_many-set_many v self b kxs keys h =
      let v' : View ah B T = (set_each ah B T b kxs v).1 in
      let found : (j : Text) → L.view v'.ctx b j ≡ written kxs j (L.view v.ctx b j) =
        λ j. (set_each_lem v b kxs b j).2 ∙ rw L.alias_refl in
      let named : Names ah B T v' self b = rw ((set_each_lem v b kxs b []).1) h in
      rw h (
        ap (λ r. r.0) (get_many_lem v' self b keys named)
        ∙ ap (λ f. ok (present f keys)) (fun_ext found))
