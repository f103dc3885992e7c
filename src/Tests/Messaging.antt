-- ===== src/Tests/Messaging.antt =====
-- The theorems on `wasi:messaging` at the default broker with one message behind a handle.
use yetti.Base.{ℕ, ◌≡◌, refl, none, some, List, [], ◌∷◌, Text, text_eq, nat_eq}
use yetti.Base.Lists.{bytes}
use yetti.Base.HashMap
use yetti.Base.Exec.{ok, err}
use yetti.Foreign.Anyhow.{chained}
use yetti.Foreign.ResourceTable.{ResourceTable, growing}
use yetti.Messaging.Message.{
  Message, InMemMessage, RequestOptions, as_message, add_metadata, set_content_type,
  remove_metadata, content_type_key, or_default,
}
use yetti.Messaging.Context.{Context}
use yetti.Messaging.Broker.{Client, broker}
use yetti.Messaging.Host
use yetti.Messaging.Host.{
  Entry, message_proxy, message_arc, request_options, View, as_client, as_options,
}
use yetti.Messaging.Host.Laws.{payload, run, updated, setter-unseen}
use yetti.Tests.Broadcast.{queues}

abbrev m : InMemMessage
m = record {
  topic = [];
  payload = 1 ∷ [];
  metadata = some ((bytes "k", bytes "v") ∷ []);
  description = none;
  reply = none;
}

-- The default broker, whose own receiver is the first of its channel.
abbrev default_client : Client chained queues
default_client = record { sender = tt; receiver = 0 }

abbrev C : Context chained
C = broker chained queues default_client

abbrev T : ResourceTable (Entry (Client chained queues))
T = growing (Entry (Client chained queues))

abbrev table_error : Text → List Text
table_error t = t ∷ []

abbrev v : View chained C T table_error
v = record { ctx = [] ∷ []; table = (3, message_proxy (as_message m)) ∷ [] }

-- After `set-data` at the handle: the updated message is behind handle 4.
abbrev v1 : View chained C T table_error
v1 = record v { table = (4, message_arc (as_message (record m { payload = 2 ∷ [] }))) ∷ v.table }

ran : run chained C T table_error (payload (2 ∷ [])) 3 v ≡ (ok tt, v1)
unfolding yetti.Messaging.Host.Messages.set_data yetti.Messaging.Host.Messages.push_updated
    Host.table_message HashMap.get nat_eq yetti.Messaging.Message.set_payload
    yetti.Messaging.Message.inmem yetti.Foreign.ResourceTable.push_entry
    yetti.Foreign.ResourceTable.fresh
ran = refl

there : T.get v.table 3 ≡ some (message_proxy (as_message m))
unfolding HashMap.get nat_eq
there = refl

setter-unseen_example :
    ((q : ℕ) (e : Entry (Client chained queues))
      → T.get v.table q ≡ some e
      → T.get v1.table q ≡ some e)
    × ((held : Message) × (n : Message) × (r : ℕ) × (Host.as_message chained C T table_error
            (T.get v.table 3)
          ≡ ok held)
        × (updated chained C T table_error (payload (2 ∷ [])) held ≡ ok n)
        × (T.get v.table r ≡ none)
        × (T.get v1.table r ≡ some (message_arc n))
        × (Host.as_message chained C T table_error (T.get v1.table r) ≡ err T.absent)
        × (as_client chained C T table_error (T.get v1.table r) ≡ err T.absent)
        × (as_options chained C T table_error (T.get v1.table r) ≡ err T.absent))
setter-unseen_example = setter-unseen chained C T table_error (payload (2 ∷ [])) 3 v v1 ran

abbrev blank : RequestOptions
blank = record { timeout = none; expected_replies = none }

abbrev u : View chained C T table_error
u = record { ctx = []; table = (3, request_options blank) ∷ [] }

optional : T.get u.table 3 ≡ some (request_options blank)
unfolding HashMap.get nat_eq
optional = refl
