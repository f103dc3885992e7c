-- ===== src/Messaging/Broker/Laws.antt =====
-- What the default broker delivers (crates/wasi-messaging/src/host/default_impl.rs).
use yetti.Base.{◌<◌, ◌≡◌, refl, Option, some, [], ◌∷◌, ◌++◌, Text}
use yetti.Base.Lists.{length}
use yetti.Base.Exec.{ok}
use yetti.Foreign.Anyhow.{Anyhow}
use yetti.Messaging.Message.{Message, InMemMessage, RequestOptions, as_message, inmem}
use yetti.Messaging.Broker.{Broadcast, Client, subscribe, publish, send, request, acknowledgment}

module _ (ah : Anyhow) (B : Broadcast) where
  -- What subscribers receive of a message: its copy with the topic it was sent to.
  abbrev pub on_topic : InMemMessage → Text → Message
  on_topic i topic = as_message (record i { topic = topic })

  module _ (a : Client ah B) (topic : Text) (m : Message) (i : InMemMessage) (c : B.Channels)
      (own : m.downcast ≡ some i) where
    send_lem :
        (r : B.Receiver)
        → B.hears c r a.sender
        → send ah B a topic m c ≡ (ok tt, (B.send a.sender (on_topic i topic) c).1)
    unfolding send publish inmem
    send_lem r h = rw (own, inmem, B.send_ok a.sender r _ c h)

  -- A message sent after a client subscribed is what its stream delivers first, with the topic it
  -- was sent to, and a subscriber with room in its queue gets it last; sending does not fail. A
  -- request does the same, whatever its options, and is answered at once by a fixed message that no
  -- subscriber sent.
  send-subscribe :
      (a b : Client ah B) (topic : Text) (m : Message) (i : InMemMessage)
      (options : Option RequestOptions) (c : B.Channels)
      → m.downcast ≡ some i
      → B.hears c b.receiver a.sender
      → 0 < B.capacity
      → (stream : B.Receiver) × (d : B.Channels) × (subscribe ah B b c ≡ (ok stream, d))
        × ((send ah B a topic m d).0 ≡ ok tt)
        × (B.unread (send ah B a topic m d).1 stream ≡ on_topic i topic ∷ [])
        × ((r : B.Receiver)
            → B.hears d r a.sender
            → length (B.unread d r) < B.capacity
            → B.unread (send ah B a topic m d).1 r ≡ B.unread d r ++ on_topic i topic ∷ [])
        × (request ah B a topic m options d
            ≡ (ok (as_message acknowledgment), (send ah B a topic m d).1))
  unfolding subscribe request send
  send-subscribe a b topic m i options c own h room =
      let stream = (B.resubscribe b.receiver c).0 in
      let d = (B.resubscribe b.receiver c).1 in
      let (hearing, fresh) = B.hears-resubscribe a.sender b.receiver c h in
      let sent = send_lem a topic m i d own stream hearing in
      let small : length (B.unread d stream) < B.capacity = rw fresh room in
      (
        stream,
        d,
        refl,
        rw sent,
        rw sent (rw (B.unread-send a.sender stream _ d hearing small, fresh)),
        λ r hears_r room_r. rw sent (B.unread-send a.sender r _ d hears_r room_r),
        rw sent,
      )
