-- ===== src/Messaging/Host.antt =====
-- The handlers of `wasi:messaging`: crates/wasi-messaging/src/host/types_impl.rs, producer_impl.rs
-- and request_reply_impl.rs, over any context and any resource table.
pub mod Client
pub mod Messages
pub mod RequestReply
pub mod Laws
use yetti.Base.{ℕ, Bool, Option, none, some, List, [], ◌∷◌, Text, Bytes, text_eq, if◌then◌else◌}
use yetti.Base.Lists.{bytes, is_empty}
use yetti.Base.HashMap
use yetti.Base.Exec.{Result, ok, err, Exec, pure, lift, map_err, continue, ◌>>=◌, ◌>>◌}
use yetti.Foreign.Anyhow.{Anyhow}
use yetti.Foreign.ResourceTable.{ResourceTable}
use yetti.Messaging.Message.{
  Message, RequestOptions, Metadata, Pairs, Reply, pairs_of, metadata_of, content_type_key,
}
use yetti.Messaging.Context.{Context}

-- The variant `error` of `wasi:messaging/types`.
pub data Error : Type 0 where
  timeout : Error
  connection permission_denied other : Text → Error

-- What the table holds for this service, by its Rust type: `ClientProxy`, `MessageProxy`,
-- `Arc<dyn Message>` and `RequestOptions`.
pub data Entry (Client : Type 0) : Type 0 where
  client_proxy : Client → Entry Client
  message_proxy : Message → Entry Client
  message_arc : Message → Entry Client
  request_options : RequestOptions → Entry Client

-- The parameters are `anyhow`, a context, a table, and the conversion of a table's error by `?`
-- into `anyhow::Error`.
module _ (ah : Anyhow) (C : Context ah) (T : ResourceTable (Entry C.Client))
    (table_error : T.TableError → ah.Error) where
  -- `WasiMessagingCtxView`
  pub record View : Type 0 where
    pub ctx : C.State
    pub table : T.Table

  -- A handler that reports to the guest, and one whose error traps.
  abbrev pub Handler : Type 0 → Type 0
  Handler A = Exec View Error A

  abbrev pub Trapping : Type 0 → Type 0
  Trapping A = Exec View ah.Error A

  abbrev pub from_anyhow : ah.Error → Error
  from_anyhow e = other (ah.to_string e)

  abbrev pub from_table : T.TableError → Error
  from_table e = other (T.to_string e)

  unfoldable pub as_client : Option (Entry C.Client) → Result T.TableError C.Client
  as_client (some (client_proxy c)) = ok c
  as_client _ = err T.absent

  unfoldable pub as_message : Option (Entry C.Client) → Result T.TableError Message
  as_message (some (message_proxy m)) = ok m
  as_message _ = err T.absent

  unfoldable pub as_options : Option (Entry C.Client) → Result T.TableError RequestOptions
  as_options (some (request_options o)) = ok o
  as_options _ = err T.absent

  abbrev pub push : Entry C.Client → Exec View T.TableError ℕ
  push e v = let (r, t) = T.push e v.table in (r, record v { table = t })

  abbrev pub remove : ℕ → Exec View T.TableError (Unit {0})
  remove rep v = let (r, t) = T.delete rep v.table in (r, record v { table = t })

  abbrev pub with_err : {E F A : Type 0} → (E → F) → Exec View E A → Exec View F A
  with_err f m v = let (r, v') = m v in (map_err f r, v')

  abbrev pub on_ctx : {A : Type 0} → Exec C.State ah.Error A → Handler A
  on_ctx m v = let (r, c) = m v.ctx in (map_err from_anyhow r, record v { ctx = c })

  unfoldable pub get_client : ℕ → Handler C.Client
  unfolding as_client
  get_client self v = (map_err from_table (as_client (T.get v.table self)), v)

  unfoldable pub get_message : ℕ → Handler Message
  unfolding as_message
  get_message self v = (map_err from_table (as_message (T.get v.table self)), v)

  -- `table.get(&self_)?` of the trapping handlers
  unfoldable pub table_message : ℕ → Trapping Message
  unfolding as_message
  table_message self v = (map_err table_error (as_message (T.get v.table self)), v)
