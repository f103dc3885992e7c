-- ===== src/Websockets/Server/Laws.antt =====
-- The properties of the registry of peers and of sending (crates/wasi-websockets/src/host).
use yetti.Base.{◌≡◌, some, List, [], ◌∷◌, map, arith, Text, Eq, text_eq, nat_eq}
use yetti.Base.Lists.{bytes}
use yetti.Base.Exec.{ok, lift, ◌>>=◌}
use yetti.Base.Str.{split}
use yetti.Base.Join.{join, split_self, split-append}
use yetti.Foreign.Anyhow.{Anyhow}
use yetti.Websockets.Server.{
  PublishMessage, Addresses, Serde, Channels, PeerMap, World, target_peers, filtered_peers,
  recipients, deliver, send_message, send_peers, get_peer_map,
}

module _ {SocketAddr : Type 0} ⦃e : Eq SocketAddr⦄ (net : Addresses SocketAddr)
    (ch : Channels) where
  -- The pieces of printed addresses, joined with commas, are the addresses in order.
  target_peers-split-join :
      (addrs : List SocketAddr)
      → target_peers net ch (split b',' (join b',' (map net.to_string addrs))) ≡ addrs
  unfolding target_peers join split
  target_peers-split-join [] = ground (arith, net.parse_empty)
  target_peers-split-join (a ∷ []) =
      ground
        (arith, net.parse-to_string a, split_self b',' (net.to_string a) (net.to_string_comma a))
  target_peers-split-join (a ∷ b ∷ addrs) = ground (
    arith,
    net.parse-to_string a,
    target_peers-split-join (b ∷ addrs),
    split-append b',' (net.to_string a) (join b',' (map net.to_string (b ∷ addrs)))
        (net.to_string_comma a),
  )

  target_peers-all : target_peers net ch (split b',' (bytes "all")) ≡ []
  unfolding target_peers split nat_eq
  target_peers-all = ground (arith, net.parse_all)

  join-ne-all : (addrs : List SocketAddr) → ¬ (join b',' (map net.to_string addrs) ≡ bytes "all")
  unfolding join
  join-ne-all [] h = cc
  join-ne-all (a ∷ addrs) h = ground (arith, target_peers-all, target_peers-split-join (a ∷ addrs))

  recipients-join :
      (m : PeerMap net ch) (addrs : List SocketAddr)
      → recipients net ch m (join b',' (map net.to_string addrs)) ≡ filtered_peers net ch m addrs
  unfolding recipients
  recipients-join m addrs = ground (arith, join-ne-all addrs, target_peers-split-join addrs)

  module _ {ah : Anyhow} (json : Serde ah) where
    pub send_message-to_string :
        (p : PublishMessage) (w : World net ch) (m : PeerMap net ch)
        → w.peer_map ≡ some m
        → (lift (json.to_string p) >>= send_message net ch json) w ≡ (
          ok tt,
          record {
            peer_map = some m;
            channels = deliver net ch p.content (recipients net ch m p.peers) w.channels;
          },
        )
    unfolding send_message get_peer_map
    send_message-to_string p w m h =
        let (t, encoded, decoded) = json.from_str-to_string p in ground (arith, encoded, decoded)

    -- A message sent to a list of printed addresses succeeds while the server runs: what is queued is
    -- the message for the peers registered under these addresses, in the order of the list, and
    -- nothing for an address without a peer.
    pub send_peers-to_string :
        (message : Text) (addrs : List SocketAddr) (w : World net ch) (m : PeerMap net ch)
        → w.peer_map ≡ some m
        → send_peers net ch json message (map net.to_string addrs) w ≡ (
          ok tt,
          record {
            peer_map = some m;
            channels = deliver net ch message (filtered_peers net ch m addrs) w.channels;
          },
        )
    unfolding send_peers
    send_peers-to_string message addrs w m h = grind (
      arith,
      recipients-join m addrs,
      send_message-to_string
          (record { peers = join b',' (map net.to_string addrs); content = message }) w m h,
    )
