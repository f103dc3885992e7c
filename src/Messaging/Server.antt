-- ===== src/Messaging/Server.antt =====
-- The server of messages: crates/wasi-messaging/src/host/server.rs. The runtime of WebAssembly is a
-- parameter. Each message is handled by a task with a store and a table of its own; the tasks run
-- here one after the other, in the order of the stream.
pub mod Laws
use yetti.Base.{ℕ, List, [], ◌∷◌, ◌++◌, Text}
use yetti.Base.Lists.{bytes}
use yetti.Base.Exec.{Result, ok, err, Exec, pure, map_err, continue, ◌>>=◌}
use yetti.Foreign.Anyhow.{Anyhow}
use yetti.Foreign.ResourceTable.{ResourceTable}
use yetti.Messaging.Message.{Message}
use yetti.Messaging.Context.{Context}
use yetti.Messaging.Host.{Error, Entry, message_proxy}

module _ (ah : Anyhow) (C : Context ah) (T : ResourceTable (Entry C.Client)) where
  -- The instances of the guest, each in a store with a table. A call gives an error of the runtime (a
  -- trap), or the guest's result.
  pub record Runtime : Type 1 where
    pub World : Type 0
    pub Instance : Type 0
    pub new_table : T.Table
    pub instantiate : T.Table → Exec World ah.Error Instance
    pub call_handle : Instance → ℕ → Exec World ah.Error (Result Error (Unit {0}))

  module _ (R : Runtime) where
    abbrev pushed : Result T.TableError ℕ × T.Table → Result ah.Error (ℕ × T.Table)
    pushed (ok msg_res, table) = ok (msg_res, table)
    pushed (err e, table) = err (ah.msg (bytes "failed to push message: " ++ T.to_string e))

    push_message : Message → Result ah.Error (ℕ × T.Table)
    push_message message = pushed (T.push (message_proxy message) R.new_table)

    -- `call_handle(…).await.map(|_| ()).context("issue sending message")`
    abbrev called : Result ah.Error (Result Error (Unit {0})) → Result ah.Error (Unit {0})
    called (ok _) = ok tt
    called (err e) = err (ah.context (bytes "issue sending message") e)

    abbrev handled : Result ah.Error (ℕ × T.Table) → Exec R.World ah.Error (Unit {0})
    handled (err e) = λ w. (err e, w)
    handled (ok (msg_res, table)) = R.instantiate table >>= λ instance w.
        let (r, w') = R.call_handle instance msg_res w in (called r, w')

    -- `Handler::handle`
    unfoldable pub handle : Message → Exec R.World ah.Error (Unit {0})
    unfolding push_message
    handle message = handled (push_message message)

    -- An error that the loop of `run` logs: the topic of the message, and the error.
    pub record Report : Type 0 where
      pub topic : Text
      pub error : Text

    abbrev reported : Message → Result ah.Error (Unit {0}) → List Report → List Report
    reported message (ok _) reports = reports
    reported message (err e) reports =
        record { topic = message.topic; error = ah.to_string e } ∷ reports

    -- the loop of `run` on the messages of the stream, with what it logs
    unfoldable pub run : List Message → R.World → List Report × R.World
    unfolding handle
    run [] w = ([], w)
    run (message ∷ stream) w =
        let (r, w') = handle message w in
        let (reports, w'') = run stream w' in (reported message r reports, w'')

  -- `Handler::subscriptions`
  unfoldable pub subscriptions : Exec C.State ah.Error C.Subscriptions
  subscriptions = do client ← C.connect; C.subscribe client
