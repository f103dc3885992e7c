-- ===== src/Blobstore/Host.antt =====
-- The handlers of `wasi:blobstore`: crates/wasi-blobstore/src/host/blobstore_impl.rs, container_impl.rs
-- and types_impl.rs, over any context, any resource table and the pipes of `wasmtime_wasi`. Handlers
-- that are `unimplemented!` are left out.
pub mod Laws
use yetti.Base.{ℕ, Bool, Option, none, some, List, [], ◌∷◌, Text, Bytes}
use yetti.Base.Lists.{bytes, length}
use yetti.Base.Exec.{Result, ok, err, Exec, pure, raise, map_err, continue, ◌>>=◌, ◌>>◌}
use yetti.Foreign.Anyhow.{Anyhow}
use yetti.Foreign.ResourceTable.{ResourceTable}
use yetti.Blobstore.Context.{Context, ContainerMetadata, ObjectMetadata}

-- `MemoryOutputPipe`: clones share what was written to them.
pub record Pipes : Type 1 where
  pub State : Type 0
  pub Pipe : Type 0
  pub new : ℕ → State → Pipe × State
  pub contents : Pipe → State → Bytes

-- What the table holds for this service: `ContainerProxy`, `Bytes`, `MemoryOutputPipe`,
-- `Vec<String>`, and the two kinds of streams.
pub data Entry (Container Pipe : Type 0) : Type 0 where
  container_proxy : Container → Entry Container Pipe
  incoming_value : Bytes → Entry Container Pipe
  outgoing_value : Pipe → Entry Container Pipe
  object_names : List Text → Entry Container Pipe
  input_stream : Bytes → Entry Container Pipe
  output_stream : Pipe → Entry Container Pipe

module _ (ah : Anyhow) (C : Context ah) (P : Pipes) (T : ResourceTable (Entry C.Container P.Pipe))
    (table_error : T.TableError → ah.Error) where
  -- `WasiBlobstoreCtxView`, with the pipes that the table's entries refer to
  pub record View : Type 0 where
    pub ctx : C.State
    pub pipes : P.State
    pub table : T.Table

  abbrev pub Handler : Type 0 → Type 0
  Handler A = Exec View ah.Error A

  as_container : Option (Entry C.Container P.Pipe) → Result T.TableError C.Container
  as_container (some (container_proxy c)) = ok c
  as_container _ = err T.absent

  as_incoming : Option (Entry C.Container P.Pipe) → Result T.TableError Bytes
  as_incoming (some (incoming_value x)) = ok x
  as_incoming _ = err T.absent

  as_outgoing : Option (Entry C.Container P.Pipe) → Result T.TableError P.Pipe
  as_outgoing (some (outgoing_value p)) = ok p
  as_outgoing _ = err T.absent

  abbrev within : {A : Type 0} → Text → Result T.TableError A → Result ah.Error A
  within message r = map_err (λ e. ah.context message (table_error e)) r

  unfoldable pub get_container : ℕ → Handler C.Container
  unfolding as_container
  get_container self v =
      (within (bytes "Container not found") (as_container (T.get v.table self)), v)

  unfoldable pub get_incoming : ℕ → Handler Bytes
  unfolding as_incoming
  get_incoming this v =
      (within (bytes "IncomingValue not found") (as_incoming (T.get v.table this)), v)

  abbrev push : Entry C.Container P.Pipe → Handler ℕ
  push e v = let (r, t) = T.push e v.table in (map_err table_error r, record v { table = t })

  -- A call of the context, with the context that its error gets.
  abbrev call : {A : Type 0} → (ah.Error → ah.Error) → Exec C.State ah.Error A → Handler A
  call f m v = let (r, c) = m v.ctx in (map_err f r, record v { ctx = c })

  -- blobstore_impl.rs
  unfoldable pub create_container : Text → ℕ → Handler ℕ
  create_container name now = do
    container ← call (λ e. e) (C.create_container name now)
    push (container_proxy container)

  unfoldable pub open_container : Text → Handler ℕ
  open_container name = do
    container ← call (λ e. e) (C.get_container name)
    push (container_proxy container)

  unfoldable pub delete_container : Text → Handler (Unit {0})
  delete_container name = call (λ e. e) (C.delete_container name)

  unfoldable pub container_exists : Text → Handler Bool
  container_exists name = call (λ e. e) (C.container_exists name)

  -- container_impl.rs
  unfoldable pub name : ℕ → Handler Text
  name self = do
    container ← get_container self
    call (ah.context (bytes "getting name")) (C.name container)

  unfoldable pub info : ℕ → Handler ContainerMetadata
  info self = do
    container ← get_container self
    call (ah.context (bytes "getting info")) (C.info container)

  found_data : Option Bytes → Handler ℕ
  found_data none = raise (ah.msg (bytes "object not found"))
  found_data (some content) = push (incoming_value content)

  unfoldable pub get_data : ℕ → Text → ℕ → ℕ → Handler ℕ
  unfolding found_data
  get_data self name start end = do
    container ← get_container self
    data_opt ← call (ah.context (bytes "getting data")) (C.get_data container name start end)
    found_data data_opt

  -- the contents of the pipe behind a handle
  unfoldable pub written : ℕ → Handler Bytes
  unfolding as_outgoing
  written content = do
    pipe ← λ v. (map_err table_error (as_outgoing (T.get v.table content)), v)
    λ v. (ok (P.contents pipe v.pipes), v)

  unfoldable pub write_data : ℕ → Text → ℕ → Handler (Unit {0})
  write_data self name content = do
    x ← written content
    container ← get_container self
    call (ah.context (bytes "writing data")) (C.write_data container name x)

  unfoldable pub list_objects : ℕ → Handler ℕ
  list_objects self = do
    container ← get_container self
    names ← call (ah.context (bytes "listing objects")) (C.list_objects container)
    push (object_names names)

  unfoldable pub delete_object : ℕ → Text → Handler (Unit {0})
  delete_object self name = do
    container ← get_container self
    call (ah.context (bytes "deleting object")) (C.delete_object container name)

  -- The loop of `delete_objects` and of `clear`.
  unfoldable pub delete_each : C.Container → List Text → Handler (Unit {0})
  delete_each container [] = pure tt
  delete_each container (name ∷ names) = do
    call (ah.context (bytes "deleting object")) (C.delete_object container name)
    delete_each container names

  unfoldable pub delete_objects : ℕ → List Text → Handler (Unit {0})
  delete_objects self names = do container ← get_container self; delete_each container names

  unfoldable pub has_object : ℕ → Text → Handler Bool
  has_object self name = do
    container ← get_container self
    call (ah.context (bytes "checking object exists")) (C.has_object container name)

  unfoldable pub object_info : ℕ → Text → ℕ → Handler ObjectMetadata
  object_info self name now = do
    container ← get_container self
    call (ah.context (bytes "getting object info")) (C.object_info container name now)

  unfoldable pub clear : ℕ → Handler (Unit {0})
  clear self = do
    container ← get_container self
    all_objects ← call (ah.context (bytes "listing objects")) (C.list_objects container)
    delete_each container all_objects

  -- types_impl.rs
  unfoldable pub incoming_value_consume_sync : ℕ → Handler Bytes
  incoming_value_consume_sync this = get_incoming this

  unfoldable pub incoming_value_consume_async : ℕ → Handler ℕ
  incoming_value_consume_async this = do value ← get_incoming this; push (input_stream value)

  unfoldable pub size : ℕ → Handler ℕ
  size self = do value ← get_incoming self; pure (length value)

  unfoldable pub new_outgoing_value : Handler ℕ
  new_outgoing_value v =
      let (pipe, pipes) = P.new 1024 v.pipes in
      push (outgoing_value pipe) (record v { pipes = pipes })

  -- a full table is reported to the guest
  abbrev reported : Result T.TableError ℕ → Result (Unit {0}) ℕ
  reported r = map_err (λ e. tt) r

  unfoldable pub outgoing_value_write_body : ℕ → Handler (Result (Unit {0}) ℕ)
  unfolding as_outgoing
  outgoing_value_write_body self = do
    value ← λ v. (within (bytes "OutgoingValue not found") (as_outgoing (T.get v.table self)), v)
    λ v.
        let (r, t) = T.push (output_stream value) v.table in
        (ok (reported r), record v { table = t })

  unfoldable pub finish : ℕ → Handler (Unit {0})
  finish self = pure tt

  -- the `drop`s of the four resources
  unfoldable pub drop : ℕ → Handler (Unit {0})
  drop rep v = let (r, t) = T.delete rep v.table in (map_err table_error r, record v { table = t })
