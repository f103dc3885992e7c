-- ===== src/Blobstore/Host/Laws.antt =====
-- What the handlers of `wasi:blobstore` do over the default store
-- (crates/wasi-blobstore/src/host/container_impl.rs and default_impl.rs).
use yetti.Base.{
  ℕ, ◌≡◌, refl, ap, ◌∙◌, false, ◌&&◌, none, some, List, [], ◌∷◌, Text, Bytes, text_eq, nat_eq, ◌==◌,
  if◌then◌else◌, arith,
}
use yetti.Base.Lists.{contains}
use yetti.Base.HashMap
use yetti.Base.HashMap.{is_some, contains_key, contains-keys}
use yetti.Base.Exec.{ok}
use yetti.Foreign.Anyhow.{Anyhow}
use yetti.Foreign.ResourceTable.{ResourceTable}
use yetti.Blobstore.Memory.{InMemContainer, Store, memory, objects_at}
use yetti.Blobstore.Memory
use yetti.Blobstore.Memory.Laws.{object, object-write_data, object-delete_object}
use yetti.Blobstore.Host.{
  Pipes, Entry, container_proxy, incoming_value, outgoing_value, View, get_container, get_incoming,
  written, get_data, write_data, has_object, delete_each, clear, incoming_value_consume_sync,
}

delete_object_ok :
    (ah : Anyhow) (c : InMemContainer) (k : Text) (s : Store)
    → (Memory.delete_object ah c k s).0 ≡ ok tt
unfolding Memory.delete_object
delete_object_ok ah c k s = refl

-- What is left at an address `d` when the keys found at the address `c` are removed.
left_over :
    (c d : ℕ) (s : Store) (j : Text)
    → is_some (if (c == d) && is_some (object s c j) then none else object s d j)
      ≡ (if c == d then false else is_some (object s d j))
left_over c d s j = ground arith

module _ (ah : Anyhow) (P : Pipes) (T : ResourceTable (Entry InMemContainer P.Pipe))
    (table_error : T.TableError → ah.Error) where
  abbrev V : Type 0
  V = View ah (memory ah) P T table_error

  module _ (v : V) (self : ℕ) (c : InMemContainer)
      (named : T.get v.table self ≡ some (container_proxy c)) where
    write_data_lem :
        (value : ℕ) (p : P.Pipe) (k : Text)
        → T.get v.table value ≡ some (outgoing_value p)
        → write_data ah (memory ah) P T table_error self k value v
          ≡ (ok tt, record v { ctx = (Memory.write_data ah c k (P.contents p v.pipes) v.ctx).1 })
    unfolding write_data written get_container Memory.write_data
    write_data_lem value p k held = rw (held, named)

    get_data_lem :
        (k : Text) (start end r : ℕ) (x : Bytes) (t : T.Table)
        → object v.ctx c.objects k ≡ some x
        → T.push (incoming_value x) v.table ≡ (ok r, t)
        → get_data ah (memory ah) P T table_error self k start end v
          ≡ (ok r, record v { table = t })
    unfolding get_data get_container Memory.get_data
    get_data_lem k start end r x t there pushed = rw (named, there, pushed)

    -- The loop of deletions removes the listed objects of the container and no others, and keeps the
    -- table.
    delete_each_lem :
        (names : List Text) (w : V) (address : ℕ) (j : Text)
        → ((delete_each ah (memory ah) P T table_error c names w).0 ≡ ok tt)
          × (object (delete_each ah (memory ah) P T table_error c names w).1.ctx address j ≡ (
              if (c.objects == address) && contains names j then none else object w.ctx address j))
          × ((delete_each ah (memory ah) P T table_error c names w).1.table ≡ w.table)
    unfolding delete_each
    delete_each_lem [] w address j = (refl, ground arith, refl)
    delete_each_lem (k ∷ names) w address j =
        let (r, e, t) =
          delete_each_lem names (record w { ctx = (Memory.delete_object ah c k w.ctx).1 }) address
            j in
        rw (delete_object_ok ah c k w.ctx) (r, e ∙ rw object-delete_object (ground arith), t)

    -- Clearing a container succeeds and removes every object of it, through whatever handle one looks,
    -- and none of the containers that do not share its objects.
    clear_lem :
        (d : InMemContainer) (reader : ℕ) (j : Text)
        → T.get v.table reader ≡ some (container_proxy d)
        → ((clear ah (memory ah) P T table_error self v).0 ≡ ok tt)
          × ((has_object ah
                (memory ah)
                P
                T
                table_error
                reader
                j
                (clear ah (memory ah) P T table_error self v).1).0
              ≡ ok (if c.objects == d.objects then false else is_some (object v.ctx d.objects j)))
    unfolding clear get_container has_object Memory.list_objects Memory.has_object
    clear_lem d reader j read_by =
        let ks = HashMap.keys (objects_at v.ctx c.objects) in
        let (r, e, t) = delete_each_lem ks v d.objects j in
        let cleared = delete_each ah (memory ah) P T table_error c ks v in
        let kept : T.get cleared.1.table reader ≡ some (container_proxy d) = rw t read_by in
        let seen : is_some (object cleared.1.ctx d.objects j)
            ≡ (if c.objects == d.objects then false else is_some (object v.ctx d.objects j)) =
          rw (e, contains-keys) (left_over c.objects d.objects v.ctx j) in
        rw named (r, rw kept (ap ok seen))

  -- What was written through one handle is what a read through any handle of the same objects hands
  -- out, all of it whatever range was asked for; the value's handle stays in the table.
  pub get_data-write_data :
      (v : V) (self reader value r : ℕ) (c d : InMemContainer) (p : P.Pipe) (k : Text)
      (start end : ℕ) (t : T.Table)
      → T.get v.table self ≡ some (container_proxy c)
      → T.get v.table reader ≡ some (container_proxy d)
      → c.objects ≡ d.objects
      → T.get v.table value ≡ some (outgoing_value p)
      → T.push (incoming_value (P.contents p v.pipes)) v.table ≡ (ok r, t)
      → (stored : V) × (after : V) × (write_data ah (memory ah) P T table_error self k value v
          ≡ (ok tt, stored))
        × (get_data ah (memory ah) P T table_error reader k start end stored ≡ (ok r, after))
        × (incoming_value_consume_sync ah (memory ah) P T table_error r after
            ≡ (ok (P.contents p v.pipes), after))
  unfolding incoming_value_consume_sync get_incoming
  get_data-write_data v self reader value r c d p k start end t named read_by shared held pushed =
      let x = P.contents p v.pipes in
      let stored : V = record v { ctx = (Memory.write_data ah c k x v.ctx).1 } in
      let there : object stored.ctx d.objects k ≡ some x =
        object-write_data ah c d.objects k k x v.ctx ∙ rw shared (ground arith) in
      let found = T.get-push_self (incoming_value x) v.table t r pushed in
      (
        stored,
        record stored { table = t },
        write_data_lem v self c named value p k held,
        get_data_lem stored reader d read_by k start end r x t there pushed,
        rw found,
      )
