-- ===== src/Messaging/Host/Messages.antt =====
-- The handlers of messages: crates/wasi-messaging/src/host/types_impl.rs.
use yetti.Base.{ℕ, Option, none, some, Text, Bytes, text_eq, if◌then◌else◌}
use yetti.Base.Lists.{is_empty}
use yetti.Base.HashMap
use yetti.Base.Exec.{Result, pure, lift, ◌>>=◌, ◌>>◌}
use yetti.Foreign.Anyhow.{Anyhow}
use yetti.Foreign.ResourceTable.{ResourceTable}
use yetti.Messaging.Message.{Message, Metadata, Pairs, pairs_of, metadata_of, content_type_key}
use yetti.Messaging.Context.{Context}
use yetti.Messaging.Host.{
  Entry, message_proxy, message_arc, Trapping, push, remove, with_err, table_message,
}

module _ (ah : Anyhow) (C : Context ah) (T : ResourceTable (Entry C.Client))
    (table_error : T.TableError → ah.Error) where
  unfoldable pub new : Bytes → Trapping ah C T table_error ℕ
  new content = do
    message ← lift (C.new_message content)
    with_err ah C T table_error table_error (push ah C T table_error (message_proxy message))

  abbrev pub shown : Text → Option Text
  shown topic = if is_empty topic then none else some topic

  unfoldable pub topic : ℕ → Trapping ah C T table_error (Option Text)
  topic self = do message ← table_message ah C T table_error self; pure (shown message.topic)

  abbrev pub content_type_in : Option Metadata → Option Text
  content_type_in none = none
  content_type_in (some md) = HashMap.get md content_type_key

  unfoldable pub content_type : ℕ → Trapping ah C T table_error (Option Text)
  content_type self = do
    message ← table_message ah C T table_error self
    pure (content_type_in message.metadata)

  -- the handler `data`
  unfoldable pub payload : ℕ → Trapping ah C T table_error Bytes
  payload self = do message ← table_message ah C T table_error self; pure message.payload

  abbrev pub pairs_in : Option Metadata → Option Pairs
  pairs_in none = none
  pairs_in (some md) = some (pairs_of md)

  unfoldable pub metadata : ℕ → Trapping ah C T table_error (Option Pairs)
  metadata self = do
    message ← table_message ah C T table_error self
    pure (pairs_in message.metadata)

  -- What the setters share: the context's updated message is pushed as it is, an
  -- `Arc<dyn Message>`.
  unfoldable pub push_updated :
      (Message → Result ah.Error Message) → ℕ → Trapping ah C T table_error (Unit {0})
  push_updated f self = do
    message ← table_message ah C T table_error self
    updated_message ← lift (f message)
    with_err ah C T table_error table_error (push ah C T table_error (message_arc updated_message))
    pure tt

  unfoldable pub set_content_type : ℕ → Text → Trapping ah C T table_error (Unit {0})
  set_content_type self content_type = push_updated (λ m. C.set_content_type m content_type) self

  unfoldable pub set_data : ℕ → Bytes → Trapping ah C T table_error (Unit {0})
  set_data self content = push_updated (λ m. C.set_payload m content) self

  unfoldable pub add_metadata : ℕ → Text → Text → Trapping ah C T table_error (Unit {0})
  add_metadata self key value = push_updated (λ m. C.add_metadata m key value) self

  unfoldable pub set_metadata : ℕ → Pairs → Trapping ah C T table_error (Unit {0})
  set_metadata self meta = push_updated (λ m. C.set_metadata m (metadata_of meta)) self

  unfoldable pub remove_metadata : ℕ → Text → Trapping ah C T table_error (Unit {0})
  remove_metadata self key = push_updated (λ m. C.remove_metadata m key) self

  unfoldable pub drop : ℕ → Trapping ah C T table_error (Unit {0})
  drop rep = with_err ah C T table_error table_error (remove ah C T table_error rep)
