-- ===== src/Websockets/Host.antt =====
-- The handlers of `wasi:websockets/store` on the default server:
-- crates/wasi-websockets/src/host/store_impl.rs and the part of default_impl.rs that serves.
pub mod Laws
use yetti.Base.{ℕ, Option, none, some, List, Text, Eq}
use yetti.Base.Lists.{bytes}
use yetti.Base.Exec.{Result, ok, err, Exec, pure, map_err, continue, ◌>>=◌}
use yetti.Foreign.Anyhow.{Anyhow}
use yetti.Foreign.ResourceTable.{ResourceTable}
use yetti.Websockets.Server
use yetti.Websockets.Server.{Addresses, Channels, Serde, Peer, World}

-- `WebSocketsDefault`, which has no fields.
pub data WebSocketsDefault : Type 0 where
  server : WebSocketsDefault

module _ {SocketAddr : Type 0} ⦃e : Eq SocketAddr⦄ (net : Addresses SocketAddr) (ch : Channels)
    {ah : Anyhow} (json : Serde ah) (T : ResourceTable WebSocketsDefault) where
  -- `WasiWebSocketsCtxView`, and the registry that the process shares
  pub record View : Type 0 where
    pub world : World net ch
    pub table : T.Table

  abbrev pub Handler : Type 0 → Type 0
  Handler A = Exec View ah.Error A

  -- the error of the table as an `anyhow::Error`
  abbrev pub from_table : T.TableError → ah.Error
  from_table e = ah.msg (T.to_string e)

  found : Option WebSocketsDefault → Result ah.Error WebSocketsDefault
  found none = err (ah.context (bytes "Failed to get WebSocket server") (from_table T.absent))
  found (some server) = ok server

  unfoldable pub use_server : ℕ → Handler WebSocketsDefault
  unfolding found
  use_server self v = (found (T.get v.table self), v)

  abbrev call : {A : Type 0} → Exec (World net ch) ah.Error A → Handler A
  call m v = let (r, w) = m v.world in (r, record v { world = w })

  unfoldable pub serve : Exec (World net ch) ah.Error WebSocketsDefault
  serve = pure server

  unfoldable pub get_server : Handler ℕ
  unfolding serve
  get_server = do
    proxy ← call serve
    λ v. let (r, t) = T.push proxy v.table in (map_err from_table r, record v { table = t })

  unfoldable pub get_peers : ℕ → Handler (List Peer)
  unfolding use_server
  get_peers self = do ws_server ← use_server self; λ v. (ok (Server.get_peers net ch v.world), v)

  unfoldable pub send_peers : ℕ → Text → List Text → Handler (Unit {0})
  unfolding use_server
  send_peers self message peers = do
    ws_server ← use_server self
    call (Server.send_peers net ch json message peers)

  unfoldable pub send_all : ℕ → Text → Handler (Unit {0})
  unfolding use_server
  send_all self message = do ws_server ← use_server self; call (Server.send_all net ch json message)

  -- `drop`, which leaves the table as it is
  unfoldable pub drop : ℕ → Handler (Unit {0})
  drop r = pure tt
