-- ===== src/Messaging/Host/Laws.antt =====
-- What the handlers of messages and options do to what a guest can see
-- (crates/wasi-messaging/src/host/types_impl.rs and request_reply_impl.rs).
use yetti.Base.{ℕ, ◌≡◌, ◌≢◌, sym, ap, ◌∙◌, Option, none, some, Text, Bytes, nat_eq, arith, inl, inr}
use yetti.Base.Exec.{Result, ok, err, Result-cases, lift, map_err-eq-ok, >>=-eq-ok}
use yetti.Foreign.Anyhow.{Anyhow}
use yetti.Foreign.ResourceTable.{ResourceTable}
use yetti.Messaging.Message.{Message, RequestOptions, Pairs, metadata_of}
use yetti.Messaging.Context.{Context}
use yetti.Messaging.Host.{
  Entry, message_proxy, message_arc, request_options, View, Trapping, as_client, as_message,
  as_options, table_message, push, with_err,
}
use yetti.Messaging.Host.Messages
use yetti.Messaging.Host.RequestReply

-- The setters of a message, with their arguments.
pub data Setter : Type 0 where
  content_type : Text → Setter
  payload : Bytes → Setter
  added : Text → Text → Setter
  replaced : Pairs → Setter
  removed : Text → Setter

module _ (ah : Anyhow) (C : Context ah) (T : ResourceTable (Entry C.Client))
    (table_error : T.TableError → ah.Error) where
  abbrev pub run : Setter → ℕ → Trapping ah C T table_error (Unit {0})
  run (content_type t) self = Messages.set_content_type ah C T table_error self t
  run (payload x) self = Messages.set_data ah C T table_error self x
  run (added k x) self = Messages.add_metadata ah C T table_error self k x
  run (replaced ps) self = Messages.set_metadata ah C T table_error self ps
  run (removed k) self = Messages.remove_metadata ah C T table_error self k

  -- What the context makes of a message for a setter.
  abbrev pub updated : Setter → Message → Result ah.Error Message
  updated (content_type t) m = C.set_content_type m t
  updated (payload x) m = C.set_payload m x
  updated (added k x) m = C.add_metadata m k x
  updated (replaced ps) m = C.set_metadata m (metadata_of ps)
  updated (removed k) m = C.remove_metadata m k

  abbrev Pushed :
      (Message → Result ah.Error Message)
      → ℕ
      → View ah C T table_error
      → View ah C T table_error
      → Type 0
  Pushed f self v v' =
      (m : Message) × (u : Message) × (r : ℕ) × (as_message ah C T table_error (T.get v.table self)
        ≡ ok m)
      × (f m ≡ ok u)
      × (T.push (message_arc u) v.table ≡ (ok r, v'.table))
      × (v'.ctx ≡ v.ctx)

  push_updated-Pushed :
      (f : Message → Result ah.Error Message) (self : ℕ) (v v' : View ah C T table_error)
      → Messages.push_updated ah C T table_error f self v ≡ (ok tt, v')
      → Pushed f self v v'
  unfolding Messages.push_updated table_message
  push_updated-Pushed f self v v' h =
      let (m, got, rest) = >>=-eq-ok (table_message ah C T table_error self) _ v v' tt h in
      let (u, made, rest1) = >>=-eq-ok (lift (f m)) _ v v' tt rest in
      let (r, pushed, rest2) =
        >>=-eq-ok
          (with_err ah C T table_error table_error (push ah C T table_error (message_arc u))) _ v v'
          tt rest1 in
      let handle = map_err-eq-ok table_error (T.push (message_arc u) v.table).0 pushed in
      (
        m,
        u,
        r,
        map_err-eq-ok table_error (as_message ah C T table_error (T.get v.table self)) got,
        made,
        λ i. (handle i, (rest2 i).1.table),
        λ i. sym (ap (λ p. p.1.ctx) rest2) i,
      )

  run-Pushed :
      (op : Setter) (self : ℕ) (v v' : View ah C T table_error)
      → run op self v ≡ (ok tt, v')
      → Pushed (updated op) self v v'
  unfolding Messages.set_content_type Messages.set_data Messages.add_metadata Messages.set_metadata
      Messages.remove_metadata
  run-Pushed (content_type t) self v v' h = push_updated-Pushed _ self v v' h
  run-Pushed (payload x) self v v' h = push_updated-Pushed _ self v v' h
  run-Pushed (added k x) self v v' h = push_updated-Pushed _ self v v' h
  run-Pushed (replaced ps) self v v' h = push_updated-Pushed _ self v v' h
  run-Pushed (removed k) self v v' h = push_updated-Pushed _ self v v' h

  -- Each setter of a message, when it succeeds, leaves what every handle in use stands for as it
  -- was, the handle that it was called with included: what the context makes, for the setter and
  -- its arguments, of the message that the handle stands for is a new entry of the table, of a type
  -- that no handler accepts.
  pub setter-unseen :
      (op : Setter) (self : ℕ) (v v' : View ah C T table_error)
      → run op self v ≡ (ok tt, v')
      → ((q : ℕ) (e : Entry C.Client) → T.get v.table q ≡ some e → T.get v'.table q ≡ some e)
        × ((m : Message) × (u : Message) × (r : ℕ) × (as_message ah C T table_error
                (T.get v.table self)
              ≡ ok m)
            × (updated op m ≡ ok u)
            × (T.get v.table r ≡ none)
            × (T.get v'.table r ≡ some (message_arc u))
            × (as_message ah C T table_error (T.get v'.table r) ≡ err T.absent)
            × (as_client ah C T table_error (T.get v'.table r) ≡ err T.absent)
            × (as_options ah C T table_error (T.get v'.table r) ≡ err T.absent))
  unfolding as_message as_client as_options
  setter-unseen op self v v' h =
      let (m, u, r, got, made, pushed, _) = run-Pushed op self v v' h in
      let fresh = T.push_fresh (message_arc u) v.table v'.table r pushed in
      let held = T.get-push_self (message_arc u) v.table v'.table r pushed in
      (
        λ q e there.
            let other : r ≢ q = λ same. cc in
            T.get-push_ne (message_arc u) v.table v'.table r q pushed other ∙ there,
        (m, u, r, got, made, fresh, held, rw held, rw held, rw held),
      )

  -- The reads of a message handle.
  abbrev Reads : View ah C T table_error → ℕ → Type 0
  Reads v q =
      Result ah.Error (Option Text)
      × Result ah.Error (Option Text)
      × Result ah.Error Bytes
      × Result ah.Error (Option Pairs)

  abbrev pub reads : (v : View ah C T table_error) (q : ℕ) → Reads v q
  reads v q = (
    (Messages.topic ah C T table_error q v).0,
    (Messages.content_type ah C T table_error q v).0,
    (Messages.payload ah C T table_error q v).0,
    (Messages.metadata ah C T table_error q v).0,
  )

  reads-as :
      (v v' : View ah C T table_error) (q : ℕ)
      → T.get v.table q ≡ T.get v'.table q
      → reads v q ≡ reads v' q
  unfolding Messages.topic Messages.content_type Messages.payload Messages.metadata table_message
  reads-as v v' q h = elim (Result-cases (as_message ah C T table_error (T.get v'.table q))) [
    | inl (m, e) ↦ rw (h, e)
    | inr (failed, e) ↦ rw (h, e)
  ]

  -- What a guest reads of a message is the same before and after a setter that succeeds on it.
  reads-setter :
      (op : Setter) (self : ℕ) (m : Message) (v v' : View ah C T table_error)
      → T.get v.table self ≡ some (message_proxy m)
      → run op self v ≡ (ok tt, v')
      → reads v' self ≡ reads v self
  reads-setter op self m v v' there h =
      let (kept, _) = setter-unseen op self v v' h in
      reads-as v' v self (kept self (message_proxy m) there ∙ sym there)

  -- The options behind a handle do keep what is set: the two fields are set independently.
  set_timeout_ms-set_expected_replies :
      (self ms n : ℕ) (o : RequestOptions) (v : View ah C T table_error)
      → T.get v.table self ≡ some (request_options o)
      → (w : View ah C T table_error) × (w' : View ah C T table_error)
        × (RequestReply.set_timeout_ms ah C T table_error self ms v ≡ (ok tt, w))
        × (RequestReply.set_expected_replies ah C T table_error self n w ≡ (ok tt, w'))
        × (T.get w'.table self
            ≡ some (request_options (record { timeout = some ms; expected_replies = some n })))
        × ((q : ℕ) → self ≢ q → T.get w'.table q ≡ T.get v.table q)
  unfolding RequestReply.set_timeout_ms RequestReply.set_expected_replies as_options
  set_timeout_ms-set_expected_replies self ms n o v h =
      let t : T.Table = T.set v.table self (request_options (record o { timeout = some ms })) in
      let there : T.get t self ≡ some (request_options (record o { timeout = some ms })) =
        T.get-set v.table self self _ _ h ∙ ground arith in
      let last : RequestOptions = record { timeout = some ms; expected_replies = some n } in
      (
        record { ctx = v.ctx; table = t },
        record { ctx = v.ctx; table = T.set t self (request_options last) },
        rw h,
        rw there,
        T.get-set t self self _ _ there ∙ ground arith,
        λ q ne. ground (
          arith,
          T.get-set t self q _ (request_options last) there,
          T.get-set v.table self q _ (request_options (record o { timeout = some ms })) h,
        ),
      )
