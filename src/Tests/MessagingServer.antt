-- ===== src/Tests/MessagingServer.antt =====
-- The server of messages, at a guest that counts its calls and returns an error for each.
use yetti.Base.{ℕ, suc, ◌≡◌, refl, none, [], ◌∷◌, nat_eq}
use yetti.Base.Lists.{bytes}
use yetti.Base.Exec.{ok, err}
use yetti.Foreign.Anyhow.{chained}
use yetti.Foreign.ResourceTable.{ResourceTable, growing}
use yetti.Messaging.Message.{Message, as_message}
use yetti.Messaging.Context.{Context}
use yetti.Messaging.Broker.{Client, broker}
use yetti.Messaging.Host.{Entry, other, message_proxy}
use yetti.Messaging.Server.{Runtime, run}
use yetti.Messaging.Server.Laws.{Passes, Served, done, next, run-Served}
use yetti.Tests.Broadcast.{queues}

abbrev C : Context chained
C = broker chained queues (record { sender = tt; receiver = 0 })

abbrev T : ResourceTable (Entry (Client chained queues))
T = growing (Entry (Client chained queues))

abbrev failing : Runtime chained C T
failing = record {
  World = ℕ;
  Instance = Unit {0};
  new_table = [];
  instantiate = λ table n. (ok tt, n);
  call_handle = λ instance msg_res n. (ok (err (other (bytes "no"))), suc n);
}

abbrev message : Message
message = as_message (record {
  topic = bytes "t";
  payload = 1 ∷ [];
  metadata = none;
  description = none;
  reply = none;
})

passes : (n : ℕ) → Passes chained C T failing message n (suc n) (err (other (bytes "no")))
unfolding yetti.Foreign.ResourceTable.push_entry yetti.Foreign.ResourceTable.fresh
passes n = record {
  msg_res = 0;
  table = (0, message_proxy message) ∷ [];
  pushed = refl;
  instance_ = tt;
  started = n;
  starts = refl;
  calls = refl;
}

served : Served chained C T failing (message ∷ message ∷ []) 0 2
served =
    next message (message ∷ []) 0 1 2 (err (other (bytes "no"))) (passes 0)
      (next message [] 1 2 2 (err (other (bytes "no"))) (passes 1) (done 2))

run-Served_example : run chained C T failing (message ∷ message ∷ []) 0 ≡ ([], 2)
run-Served_example = run-Served chained C T failing (message ∷ message ∷ []) 0 2 served
