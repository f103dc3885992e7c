-- ===== src/Messaging/Server/Laws.antt =====
-- What becomes of a message that arrives (crates/wasi-messaging/src/host/server.rs).
use yetti.Base.{ℕ, ◌≡◌, refl, List, [], ◌∷◌}
use yetti.Base.Exec.{Result, ok}
use yetti.Foreign.Anyhow.{Anyhow}
use yetti.Foreign.ResourceTable.{ResourceTable}
use yetti.Messaging.Message.{Message}
use yetti.Messaging.Context.{Context}
use yetti.Messaging.Host.{Error, Entry, message_proxy}
use yetti.Messaging.Server.{Runtime, push_message, handle, run}

module _ (ah : Anyhow) (C : Context ah) (T : ResourceTable (Entry C.Client))
    (R : Runtime ah C T) where
  -- Whether the calls for a message pass without an error of the table or of the runtime: the guest
  -- gets a handle to the message and returns its result.
  pub record Passes (message : Message) (w w' : R.World) (result : Result Error (Unit {0}))
      : Type 0 where
    pub msg_res : ℕ
    pub table : T.Table
    pub pushed : T.push (message_proxy message) R.new_table ≡ (ok msg_res, table)
    pub instance_ : R.Instance
    pub started : R.World
    pub starts : R.instantiate table w ≡ (ok instance_, started)
    pub calls : R.call_handle instance_ msg_res started ≡ (ok result, w')

  push_message_lem :
      (message : Message) (msg_res : ℕ) (table : T.Table)
      → T.push (message_proxy message) R.new_table ≡ (ok msg_res, table)
      → push_message ah C T R message ≡ ok (msg_res, table)
  unfolding push_message
  push_message_lem message msg_res table h = rw h

  handle_lem :
      (message : Message) (w w' : R.World) (result : Result Error (Unit {0}))
      → Passes message w w' result
      → handle ah C T R message w ≡ (ok tt, w')
  unfolding handle
  handle_lem message w w' result p =
      rw (push_message_lem message p.msg_res p.table p.pushed, p.starts, p.calls)

  -- The messages of a stream with the guest's results, from a state to a state.
  pub data Served : List Message → R.World → R.World → Type 0 where
    done : (w : R.World) → Served [] w w
    next :
        (message : Message) (stream : List Message) (w w' w'' : R.World)
        (result : Result Error (Unit {0}))
        → Passes message w w' result
        → Served stream w' w''
        → Served (message ∷ stream) w w''

  -- The loop hands each message of the stream to the guest, each in a table of its own, and logs
  -- nothing as long as the runtime gives no error: also where the guest returns an error for a
  -- message, which is dropped.
  pub run-Served :
      (stream : List Message) (w w' : R.World)
      → Served stream w w'
      → run ah C T R stream w ≡ ([], w')
  unfolding run
  run-Served _ w _ (done _) = refl
  run-Served _ w w'' (next message stream _ w' _ result p rest) =
      rw (handle_lem message w w' result p, run-Served stream w' w'' rest)
