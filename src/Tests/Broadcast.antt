-- ===== src/Tests/Broadcast.antt =====
-- One broadcast channel of 32 places: a queue for each receiver, whose oldest message gives way when
-- it is full.
use yetti.Base.{
  ℕ, zero, suc, ◌<◌, ◌≡◌, refl, ap, List, [], ◌∷◌, ◌++◌, Text, arith, ltb, if◌then◌else◌,
}
use yetti.Base.Lists.{length}
use yetti.Base.Exec.{ok, err, Exec}
use yetti.Messaging.Message.{Message}
use yetti.Messaging.Broker.{Broadcast}

abbrev pub Queues : Type 0
Queues = List (List Message)

unfoldable pub deliver : Message → List Message → List Message
deliver m [] = m ∷ []
deliver m (x ∷ q) = if ltb (length (x ∷ q)) 32 then x ∷ (q ++ m ∷ []) else q ++ m ∷ []

unfoldable pub unread : Queues → ℕ → List Message
unread [] r = []
unread (q ∷ c) zero = q
unread (q ∷ c) (suc r) = unread c r

unfoldable pub deliver_all : Message → Queues → Queues
deliver_all m [] = []
deliver_all m (q ∷ c) = deliver m q ∷ deliver_all m c

unfoldable pub send : Message → Exec Queues Text (Unit {0})
send m [] = (err [], [])
send m (q ∷ c) = (ok tt, deliver_all m (q ∷ c))

length-deliver_all : (m : Message) (c : Queues) → length (deliver_all m c) ≡ length c
unfolding deliver_all
length-deliver_all m [] = refl
length-deliver_all m (q ∷ c) = ap suc (length-deliver_all m c)

deliver_lem : (m : Message) (q : List Message) → length q < 32 → deliver m q ≡ q ++ m ∷ []
unfolding deliver
deliver_lem m [] h = refl
deliver_lem m (x ∷ q) h = ground arith

pub send_ok : (m : Message) (r : ℕ) (c : Queues) → r < length c → (send m c).0 ≡ ok tt
unfolding send
send_ok m r [] h = absurd (omega arith)
send_ok m r (q ∷ c) h = refl

unread-deliver_all :
    (m : Message) (r : ℕ) (c : Queues)
    → r < length c
    → length (unread c r) < 32
    → unread (deliver_all m c) r ≡ unread c r ++ m ∷ []
unfolding unread deliver_all
unread-deliver_all m r [] h room = absurd (omega arith)
unread-deliver_all m zero (q ∷ c) h room = deliver_lem m q room
unread-deliver_all m (suc r) (q ∷ c) h room = unread-deliver_all m r c (omega arith) room

pub unread-send :
    (m : Message) (r : ℕ) (c : Queues)
    → r < length c
    → length (unread c r) < 32
    → unread (send m c).1 r ≡ unread c r ++ m ∷ []
unfolding send
unread-send m r [] h room = absurd (omega arith)
unread-send m r (q ∷ c) h room = unread-deliver_all m r (q ∷ c) h room

pub length-send : (m : Message) (c : Queues) → length (send m c).1 ≡ length c
unfolding send
length-send m [] = refl
length-send m (q ∷ c) = length-deliver_all m (q ∷ c)

pub length-add : (c : Queues) → length (c ++ [] ∷ []) ≡ suc (length c)
length-add [] = refl
length-add (q ∷ c) = ap suc (length-add c)

pub unread-add : (c : Queues) → unread (c ++ [] ∷ []) (length c) ≡ []
unfolding unread
unread-add [] = refl
unread-add (q ∷ c) = unread-add c

abbrev pub queues : Broadcast
queues = record {
  Channels = Queues;
  Sender = Unit {0};
  Receiver = ℕ;
  SendError = Text;
  to_string = λ t. t;
  channel = λ n c. ((tt, length c), c ++ [] ∷ []);
  send = λ x m. send m;
  subscribe = λ x c. (length c, c ++ [] ∷ []);
  resubscribe = λ r c. (length c, c ++ [] ∷ []);
  capacity = 32;
  hears = λ c r x. r < length c;
  unread = unread;
  send_ok = λ x r m c h. send_ok m r c h;
  unread-send = λ x r m c h room. unread-send m r c h room;
  hears-send = λ x y r m c h. rw (length-send m c) h;
  hears-subscribe = λ x c. rw (length-add c) (omega arith);
  kept-subscribe = λ x y r c h. rw (length-add c) (omega arith);
  hears-resubscribe = λ x r c h. (rw (length-add c) (omega arith), unread-add c);
}
