-- ===== src/Vault/Host/Laws.antt =====
-- What the handlers of `wasi:vault` do over a lawful vault (crates/wasi-vault/src/host/vault_impl.rs).
use yetti.Base.{ℕ, ◌≡◌, ◌&&◌, Option, none, some, List, Text, Bytes, text_eq, ◌==◌, if◌then◌else◌}
use yetti.Base.HashMap.{is_some}
use yetti.Base.Lists.{contains}
use yetti.Base.Exec.{ok}
use yetti.Foreign.Anyhow.{Anyhow}
use yetti.Foreign.ResourceTable.{ResourceTable}
use yetti.KeyValue.Backend.{Backend, IsLawful}
use yetti.Vault.Host.{View, get_locker, get, set, delete, exists, list_ids}

module _ (ah : Anyhow) (B : Backend ah.Error) (T : ResourceTable B.Bucket) (L : IsLawful B) where
  -- The three reads of a locker agree with what it holds, and change nothing.
  abbrev pub Reads : View ah B T → ℕ → (Text → Option Bytes) → Type 0
  Reads v self held =
      ((k : Text)
        → (get ah B T self k v ≡ (ok (held k), v))
          × (exists ah B T self k v ≡ (ok (is_some (held k)), v)))
      × ((ks : List Text) × (list_ids ah B T self v ≡ (ok ks, v))
          × ((k : Text) → contains ks k ≡ is_some (held k)))

  reads :
      (v : View ah B T) (self : ℕ) (b : B.Bucket)
      → T.get v.table self ≡ some b
      → Reads v self (L.view v.ctx b)
  unfolding get exists list_ids get_locker
  reads v self b h =
      let (ks, listed, found) = L.keys_lem b v.ctx in
      (λ k. (rw h (rw L.get_lem), rw h (rw L.get_lem)), (ks, rw h (rw listed), found))

  set_lem :
      (v : View ah B T) (self : ℕ) (b : B.Bucket) (k : Text) (x : Bytes)
      → T.get v.table self ≡ some b
      → set ah B T self k x v ≡ (ok tt, record v { ctx = (B.set b k x v.ctx).1 })
  unfolding set get_locker
  set_lem v self b k x h = rw h (rw L.set_ok)

  delete_lem :
      (v : View ah B T) (self : ℕ) (b : B.Bucket) (k : Text)
      → T.get v.table self ≡ some b
      → delete ah B T self k v ≡ (ok tt, record v { ctx = (B.delete b k v.ctx).1 })
  unfolding delete get_locker
  delete_lem v self b k h = rw h (rw L.delete_ok)

  -- After a secret was set, and after it was deleted, `get`, `exists` and `list-ids` through any handle
  -- agree: they show the change in the lockers that share their contents with the one it was made in,
  -- and everything else as it was.
  reads-set-delete :
      (v : View ah B T) (self reader : ℕ) (b c : B.Bucket) (k : Text) (x : Bytes)
      → T.get v.table self ≡ some b
      → T.get v.table reader ≡ some c
      → (stored : View ah B T) × (removed : View ah B T) × (set ah B T self k x v ≡ (ok tt, stored))
        × (delete ah B T self k v ≡ (ok tt, removed))
        × ((held : Text → Option Bytes) × Reads stored reader held
            × ((j : Text) → held j ≡ (if L.alias b c && k == j then some x else L.view v.ctx c j)))
        × ((held : Text → Option Bytes) × Reads removed reader held
            × ((j : Text) → held j ≡ (if L.alias b c && k == j then none else L.view v.ctx c j)))
  reads-set-delete v self reader b c k x writes read_by =
      let stored : View ah B T = record v { ctx = (B.set b k x v.ctx).1 } in
      let removed : View ah B T = record v { ctx = (B.delete b k v.ctx).1 } in
      (
        stored,
        removed,
        set_lem v self b k x writes,
        delete_lem v self b k writes,
        (L.view stored.ctx c, reads stored reader c read_by, λ j. L.view-set b c k j x v.ctx),
        (L.view removed.ctx c, reads removed reader c read_by, λ j. L.view-delete b c k j v.ctx),
      )
