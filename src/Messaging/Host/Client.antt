-- ===== src/Messaging/Host/Client.antt =====
-- The handlers of clients and of the producer: crates/wasi-messaging/src/host/types_impl.rs and
-- producer_impl.rs.
use yetti.Base.{ℕ, Text, text_eq}
use yetti.Base.Exec.{pure, ◌>>=◌}
use yetti.Foreign.Anyhow.{Anyhow}
use yetti.Foreign.ResourceTable.{ResourceTable}
use yetti.Messaging.Context.{Context}
use yetti.Messaging.Host.{
  Entry, client_proxy, Handler, Trapping, from_table, push, remove, with_err, on_ctx, get_client,
  get_message,
}

module _ (ah : Anyhow) (C : Context ah) (T : ResourceTable (Entry C.Client))
    (table_error : T.TableError → ah.Error) where
  unfoldable pub connect : Text → Handler ah C T table_error ℕ
  connect _name = do
    client ← on_ctx ah C T table_error C.connect
    with_err ah C T table_error (from_table ah C T table_error)
        (push ah C T table_error (client_proxy client))

  unfoldable pub disconnect : ℕ → Handler ah C T table_error (Unit {0})
  disconnect self = pure tt

  unfoldable pub drop : ℕ → Trapping ah C T table_error (Unit {0})
  drop rep = with_err ah C T table_error table_error (remove ah C T table_error rep)

  unfoldable pub send : ℕ → Text → ℕ → Handler ah C T table_error (Unit {0})
  send c topic message = do
    client ← get_client ah C T table_error c
    msg ← get_message ah C T table_error message
    on_ctx ah C T table_error (C.send client topic msg)
