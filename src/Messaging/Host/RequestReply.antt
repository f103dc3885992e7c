-- ===== src/Messaging/Host/RequestReply.antt =====
-- The handlers of requests and replies: crates/wasi-messaging/src/host/request_reply_impl.rs.
use yetti.Base.{ℕ, Option, none, some, List, [], ◌∷◌, Text, text_eq}
use yetti.Base.Exec.{ok, pure, map_err, ◌>>=◌}
use yetti.Foreign.Anyhow.{Anyhow}
use yetti.Foreign.ResourceTable.{ResourceTable}
use yetti.Messaging.Message.{RequestOptions, Reply}
use yetti.Messaging.Context.{Context}
use yetti.Messaging.Host.{
  Entry, message_proxy, request_options, Handler, Trapping, from_anyhow, from_table, as_options,
  push, remove, with_err, on_ctx, get_client, get_message,
}

module _ (ah : Anyhow) (C : Context ah) (T : ResourceTable (Entry C.Client))
    (table_error : T.TableError → ah.Error) where
  -- the options behind a handle, if one is given
  found_options : Option ℕ → Handler ah C T table_error (Option RequestOptions)
  found_options none = pure none
  found_options (some opts) = do
    options ← λ v. (
      map_err (λ e. from_anyhow ah C T table_error (table_error e))
          (as_options ah C T table_error (T.get v.table opts)),
      v,
    )
    pure (some options)

  unfoldable pub request : ℕ → Text → ℕ → Option ℕ → Handler ah C T table_error (List ℕ)
  unfolding found_options as_options
  request c topic message options = do
    client ← get_client ah C T table_error c
    msg ← get_message ah C T table_error message
    opts ← found_options options
    reply ← on_ctx ah C T table_error (C.request client topic msg opts)
    reply_res ←
        with_err ah C T table_error (from_table ah C T table_error)
          (push ah C T table_error (message_proxy reply))
    pure (reply_res ∷ [])

  reply_with : Option Reply → ℕ → Handler ah C T table_error (Unit {0})
  reply_with none message = pure tt
  reply_with (some reply) message = do
    client ← on_ctx ah C T table_error C.connect
    msg ← get_message ah C T table_error message
    on_ctx ah C T table_error (C.send client reply.topic msg)

  unfoldable pub reply : ℕ → ℕ → Handler ah C T table_error (Unit {0})
  unfolding reply_with
  reply reply_to message = do
    original ← get_message ah C T table_error reply_to
    reply_with original.reply message

  unfoldable pub new : Trapping ah C T table_error ℕ
  new = with_err ah C T table_error table_error (
      push ah C T table_error
        (request_options (record { timeout = none; expected_replies = none })))

  -- a write through the reference that `get_mut` returns
  abbrev modify : (RequestOptions → RequestOptions) → ℕ → Trapping ah C T table_error (Unit {0})
  modify f self = do
    options ← λ v. (map_err table_error (as_options ah C T table_error (T.get v.table self)), v)
    λ v. (ok tt, record v { table = T.set v.table self (request_options (f options)) })

  unfoldable pub set_timeout_ms : ℕ → ℕ → Trapping ah C T table_error (Unit {0})
  unfolding as_options
  set_timeout_ms self timeout_ms = modify (λ o. record o { timeout = some timeout_ms }) self

  unfoldable pub set_expected_replies : ℕ → ℕ → Trapping ah C T table_error (Unit {0})
  unfolding as_options
  set_expected_replies self n = modify (λ o. record o { expected_replies = some n }) self

  unfoldable pub drop : ℕ → Trapping ah C T table_error (Unit {0})
  drop rep = with_err ah C T table_error table_error (remove ah C T table_error rep)
