-- ===== src/Websockets/Host/Laws.antt =====
-- The properties of the handlers of `wasi:websockets/store` (crates/wasi-websockets/src/host).
use yetti.Base.{ℕ, ◌≡◌, ap, ◌∙◌, some, List, map, arith, Text, Eq}
use yetti.Base.Exec.{ok, map_err-eq-ok}
use yetti.Foreign.Anyhow.{Anyhow}
use yetti.Foreign.ResourceTable.{ResourceTable}
use yetti.Websockets.Server
use yetti.Websockets.Server.{Addresses, Channels, Serde, Peer, PeerMap}
use yetti.Websockets.Server.Peers.{Reachable, send_peers-get_peers}
use yetti.Websockets.Host.{
  from_table, WebSocketsDefault, server, View, use_server, serve, get_server, get_peers, send_peers,
  send_all, drop,
}

module _ {SocketAddr : Type 0} ⦃e : Eq SocketAddr⦄ (net : Addresses SocketAddr) (ch : Channels)
    {ah : Anyhow} (json : Serde ah) (T : ResourceTable WebSocketsDefault) where
  get-get_server :
      (v v' : View net ch json T) (r : ℕ)
      → get_server net ch json T v ≡ (ok r, v')
      → (T.get v'.table r ≡ some server) × (v'.world ≡ v.world)
  unfolding get_server serve
  get-get_server v v' r h = ground (
    arith,
    h,
    map_err-eq-ok (from_table net ch json T) (T.push server v.table).0 {a = r} (ap (λ p. p.0) h),
    T.get-push_self server v.table (T.push server v.table).1 r,
  )

  use_server-held :
      (v : View net ch json T) (r : ℕ)
      → T.get v.table r ≡ some server
      → use_server net ch json T r v ≡ (ok server, v)
  unfolding use_server
  use_server-held v r h = ground (arith, h)

  -- A guest that got a handle of the server, at whatever registry the connections have made: the
  -- peers it lists take a message sent to their addresses as they take a broadcast, and a broadcast
  -- through the handle is the server's, even after the guest has dropped the handle.
  pub get_server-broadcast :
      (v v' : View net ch json T) (r : ℕ) (m : PeerMap net ch) (message : Text)
      → get_server net ch json T v ≡ (ok r, v')
      → v.world.peer_map ≡ some m
      → Reachable net ch json m
      → (peers : List Peer) × (get_peers net ch json T r v' ≡ (ok peers, v'))
        × (send_peers net ch json T r message (map (λ p. p.address) peers) v'
            ≡ send_all net ch json T r message v')
        × (send_all net ch json T r message (drop net ch json T r v').1 ≡ (
          (Server.send_all net ch json message v.world).0,
          record v' { world = (Server.send_all net ch json message v.world).1 },
        ))
  unfolding get_peers send_peers send_all drop
  get_server-broadcast v v' r m message h running reachable =
      let (here, same) = get-get_server v v' r h in
      let held = use_server-held v' r here in
      (
        Server.get_peers net ch v'.world,
        grind (arith, held),
        grind (
          arith,
          held,
          send_peers-get_peers net ch json message v'.world m reachable
              (ap (λ w. w.peer_map) same ∙ running),
        ),
        grind (arith, held, same),
      )
