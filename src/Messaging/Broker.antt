-- ===== src/Messaging/Broker.antt =====
-- `MessagingDefault` of crates/wasi-messaging/src/host/default_impl.rs, over the broadcast channel
-- of `tokio`.
pub mod Laws
use yetti.Base.{
  ℕ, suc, ◌+◌, ◌<◌, ◌≡◌, Bool, true, false, Option, none, some, List, [], ◌∷◌, ◌++◌, Text, Bytes,
}
use yetti.Base.Lists.{bytes, length}
use yetti.Base.Exec.{Result, ok, err, Exec, pure, raise, lift, map_err, continue, ◌>>=◌, ◌>>◌}
use yetti.Foreign.Anyhow.{Anyhow}
use yetti.Messaging.Message
use yetti.Messaging.Message.{Message, InMemMessage, RequestOptions, as_message, inmem}
use yetti.Messaging.Context.{Context}

-- `tokio::sync::broadcast` at the type of messages. `unread` is what a receiver has yet to receive.
pub record Broadcast : Type 1 where
  pub Channels : Type 0
  pub Sender : Type 0
  pub Receiver : Type 0
  pub SendError : Type 0
  pub to_string : SendError → Text
  pub channel : ℕ → Channels → (Sender × Receiver) × Channels
  pub send : Sender → Message → Exec Channels SendError (Unit {0})
  pub subscribe : Sender → Channels → Receiver × Channels
  pub resubscribe : Receiver → Channels → Receiver × Channels
  pub capacity : ℕ
  -- the receivers of a sender's channel, while they are not dropped
  pub hears : Channels → Receiver → Sender → Type 0
  pub unread : Channels → Receiver → List Message
  -- sending succeeds if there is a receiver
  pub send_ok :
      (x : Sender) (r : Receiver) (m : Message) (c : Channels)
      → hears c r x
      → (send x m c).0 ≡ ok tt
  -- each receiver that does not lag behind gets the message, behind those it has yet to receive
  pub unread-send :
      (x : Sender) (r : Receiver) (m : Message) (c : Channels)
      → hears c r x
      → length (unread c r) < capacity
      → unread (send x m c).1 r ≡ unread c r ++ m ∷ []
  pub hears-send :
      (x y : Sender) (r : Receiver) (m : Message) (c : Channels)
      → hears c r y
      → hears (send x m c).1 r y
  -- a new receiver hears what its channel's sender sends from then on
  pub hears-subscribe : (x : Sender) (c : Channels) → hears (subscribe x c).1 (subscribe x c).0 x
  pub kept-subscribe :
      (x y : Sender) (r : Receiver) (c : Channels) → hears c r y → hears (subscribe x c).1 r y
  pub hears-resubscribe :
      (x : Sender) (r : Receiver) (c : Channels)
      → hears c r x
      → hears (resubscribe r c).1 (resubscribe r c).0 x
        × (unread (resubscribe r c).1 (resubscribe r c).0 ≡ [])

abbrev pub acknowledgment : InMemMessage
acknowledgment = record {
  topic = bytes "response";
  payload = bytes "ACK";
  metadata = none;
  description = some (bytes "default response");
  reply = none;
}

module _ (ah : Anyhow) (B : Broadcast) where
  -- `MessagingDefault`
  pub record Client : Type 0 where
    pub sender : B.Sender
    pub receiver : B.Receiver

  abbrev pub Run : Type 0 → Type 0
  Run A = Exec B.Channels ah.Error A

  -- `Backend::connect_with`
  unfoldable pub connect_with : Run Client
  connect_with c =
      let ((sender, receiver), c') = B.channel 32 c in
      (ok (record { sender = sender; receiver = receiver }), c')

  -- `Clone`
  unfoldable pub clone : Client → Run Client
  clone self c =
      let (receiver, c') = B.subscribe self.sender c in
      (ok (record { sender = self.sender; receiver = receiver }), c')

  unfoldable pub connect : Client → Run Client
  connect self = clone self

  -- the stream is the new receiver, whose errors are skipped
  unfoldable pub subscribe : Client → Run B.Receiver
  subscribe self c = let (receiver, c') = B.resubscribe self.receiver c in (ok receiver, c')

  -- The part that `send` and `request` share.
  unfoldable pub publish : Client → Text → Message → Run (Unit {0})
  publish self topic message = do
    m ← lift (inmem ah message)
    λ c.
        let (r, c') = B.send self.sender (as_message (record m { topic = topic })) c in
        (map_err (λ e. ah.msg (bytes "send error: " ++ B.to_string e)) r, c')

  unfoldable pub send : Client → Text → Message → Run (Unit {0})
  send self topic message = publish self topic message

  unfoldable pub request : Client → Text → Message → Option RequestOptions → Run Message
  request self topic message _options = do
    publish self topic message
    pure (as_message acknowledgment)

  -- The context that the host holds, `self` being the value that connected first.
  abbrev pub broker : Client → Context ah
  broker self = record {
    State = B.Channels;
    Client = Client;
    Subscriptions = B.Receiver;
    connect = connect self;
    new_message = Message.new_message ah;
    set_content_type = Message.set_content_type ah;
    set_payload = Message.set_payload ah;
    add_metadata = Message.add_metadata ah;
    set_metadata = Message.set_metadata ah;
    remove_metadata = Message.remove_metadata ah;
    subscribe = subscribe;
    send = send;
    request = request;
  }
