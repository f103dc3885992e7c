-- ===== src/Messaging/Message/Laws.antt =====
-- What the updates of a message change (crates/wasi-messaging/src/host/default_impl.rs).
use yetti.Base.{◌≡◌, refl, Option, none, some, [], ◌∷◌, Text, text_eq, ◌==◌, if◌then◌else◌, arith}
use yetti.Base.HashMap
use yetti.Base.HashMap.{get-insert, get-remove}
use yetti.Base.Exec.{ok}
use yetti.Foreign.Anyhow.{Anyhow}
use yetti.Messaging.Message.{
  Message, InMemMessage, Metadata, Pairs, as_message, or_default, without, content_type_key,
  metadata_of, insert_all, set_content_type, add_metadata, remove_metadata, inmem,
}

-- The value of a message's metadata at a key.
abbrev pub field : Message → Text → Option Text
field m k = HashMap.get (or_default m.metadata) k

get-without :
    (o : Option Metadata) (k j : Text)
    → HashMap.get (or_default (without k o)) j
      ≡ (if k == j then none else HashMap.get (or_default o) j)
unfolding HashMap.get
get-without none k j = ground arith
get-without (some m) k j = get-remove m k j

module _ (ah : Anyhow) (m : InMemMessage) where
  -- Adding a pair to the metadata sets its key and keeps the others; the content type is the
  -- metadata's field of that name; removing a key clears it and keeps the others. Topic, payload
  -- and reply stay as they were.
  metadata-updates :
      (k j v : Text)
      → ((a : Message) × (add_metadata ah (as_message m) k v ≡ ok a)
          × (field a j ≡ (if k == j then some v else field (as_message m) j))
          × (a.topic ≡ m.topic)
          × (a.payload ≡ m.payload)
          × (a.reply ≡ m.reply))
        × (set_content_type ah (as_message m) v ≡ add_metadata ah (as_message m) content_type_key v)
        × ((r : Message) × (remove_metadata ah (as_message m) k ≡ ok r)
            × (field r j ≡ (if k == j then none else field (as_message m) j))
            × (r.topic ≡ m.topic)
            × (r.payload ≡ m.payload)
            × (r.reply ≡ m.reply))
  unfolding add_metadata set_content_type remove_metadata inmem
  metadata-updates k j v = (
    (_, refl, get-insert (or_default m.metadata) k j v, refl, refl, refl),
    refl,
    (_, refl, get-without m.metadata k j, refl, refl, refl),
  )

-- The last value of a key among the pairs of a guest, and behind them the map's.
abbrev last_value : Pairs → Text → Option Text → Option Text
last_value [] j o = o
last_value ((k, v) ∷ ps) j o = last_value ps j (if k == j then some v else o)

insert_all_lem :
    (ps : Pairs) (m : Metadata) (j : Text)
    → HashMap.get (insert_all m ps) j ≡ last_value ps j (HashMap.get m j)
unfolding insert_all
insert_all_lem [] m j = refl
insert_all_lem ((k, v) ∷ ps) m j = rw (insert_all_lem ps, get-insert)

-- A map made from a guest's pairs holds the last value of each key.
metadata_of_lem : (ps : Pairs) (j : Text) → HashMap.get (metadata_of ps) j ≡ last_value ps j none
unfolding metadata_of HashMap.get
metadata_of_lem ps j = insert_all_lem ps [] j
