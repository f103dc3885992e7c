-- ===== src/Messaging/Message.antt =====
-- The messages of crates/wasi-messaging/src/host/resource.rs, and those of the default broker with
-- their updates (crates/wasi-messaging/src/host/default_impl.rs).
pub mod Laws
use yetti.Base.{ℕ, Option, none, some, List, [], ◌∷◌, Text, Bytes, text_eq}
use yetti.Base.Lists.{bytes, length}
use yetti.Base.HashMap
use yetti.Base.HashMap.{HashMap}
use yetti.Base.Exec.{Result, ok, err}
use yetti.Foreign.Anyhow.{Anyhow}

abbrev pub Metadata : Type 0
Metadata = HashMap Text Text

-- `types::Metadata`: the pairs that a guest sends or receives
abbrev pub Pairs : Type 0
Pairs = List (Text × Text)

-- `From<Metadata> for types::Metadata`, in the order of the map's iteration
unfoldable pub pairs_of : Metadata → Pairs
pairs_of [] = []
pairs_of ((k, v) ∷ meta) = (k, v) ∷ pairs_of meta

insert_all : Metadata → Pairs → Metadata
insert_all m [] = m
insert_all m ((k, v) ∷ meta) = insert_all (HashMap.insert m k v) meta

-- `From<types::Metadata> for Metadata`
unfoldable pub metadata_of : Pairs → Metadata
unfolding insert_all
metadata_of meta = insert_all [] meta

pub record Reply : Type 0 where
  pub client_name : Text
  pub topic : Text

pub record RequestOptions : Type 0 where
  -- in milliseconds
  pub timeout : Option ℕ
  pub expected_replies : Option ℕ

pub record InMemMessage : Type 0 where
  pub topic : Text
  pub payload : Bytes
  pub metadata : Option Metadata
  pub description : Option Text
  pub reply : Option Reply

-- `Arc<dyn Message>` by the results of its methods; `downcast` is `as_any().downcast_ref()` at
-- `InMemMessage`.
pub record Message : Type 0 where
  pub topic : Text
  pub payload : Bytes
  pub metadata : Option Metadata
  pub description : Option Text
  pub length : ℕ
  pub reply : Option Reply
  pub downcast : Option InMemMessage

-- `impl Message for InMemMessage`
abbrev pub as_message : InMemMessage → Message
as_message self = record {
  topic = self.topic;
  payload = self.payload;
  metadata = self.metadata;
  description = self.description;
  length = length self.payload;
  reply = self.reply;
  downcast = some self;
}

-- `From<Vec<u8>> for InMemMessage`
abbrev pub from_vec : Bytes → InMemMessage
from_vec content = record {
  topic = [];
  payload = content;
  metadata = none;
  description = none;
  reply = none;
}

abbrev pub or_default : Option Metadata → Metadata
or_default none = []
or_default (some metadata) = metadata

abbrev pub content_type_key : Text
content_type_key = bytes "content-type"

abbrev pub without : Text → Option Metadata → Option Metadata
without key none = none
without key (some metadata) = some (HashMap.remove metadata key)

module _ (ah : Anyhow) where
  abbrev pub Fallible : Type 0 → Type 0
  Fallible A = Result ah.Error A

  unfoldable pub inmem : Message → Fallible InMemMessage
  inmem message = elim message.downcast [
    | none ↦ err (ah.msg (bytes "invalid message type"))
    | some m ↦ ok m
  ]

  -- An update of a message of the default broker: any other is refused.
  abbrev pub updated : (InMemMessage → InMemMessage) → Fallible InMemMessage → Fallible Message
  updated f (ok m) = ok (as_message (f m))
  updated f (err e) = err e

  abbrev pub with_metadata : (Metadata → Metadata) → InMemMessage → InMemMessage
  with_metadata f m = record m { metadata = some (f (or_default m.metadata)) }

  abbrev pub new_message : Bytes → Fallible Message
  new_message content = ok (as_message (from_vec content))

  unfoldable pub set_content_type : Message → Text → Fallible Message
  set_content_type message content_type =
      updated (with_metadata (λ m. HashMap.insert m content_type_key content_type)) (inmem message)

  unfoldable pub set_payload : Message → Bytes → Fallible Message
  set_payload message content = updated (λ m. record m { payload = content }) (inmem message)

  unfoldable pub add_metadata : Message → Text → Text → Fallible Message
  add_metadata message key value =
      updated (with_metadata (λ m. HashMap.insert m key value)) (inmem message)

  unfoldable pub set_metadata : Message → Metadata → Fallible Message
  set_metadata message metadata =
      updated (λ m. record m { metadata = some metadata }) (inmem message)

  unfoldable pub remove_metadata : Message → Text → Fallible Message
  remove_metadata message key =
      updated (λ m. record m { metadata = without key m.metadata }) (inmem message)
