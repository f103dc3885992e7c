-- ===== src/Websockets/Server.antt =====
-- The registry of peers and the sending of messages: crates/wasi-websockets/src/host/server.rs,
-- types.rs and default_impl.rs. A lock is held for the whole of a synchronous step, so that each step
-- acts on the contents of the map; a poisoned lock, at which the code panics, is left out.
pub mod Laws
pub mod Peers
use yetti.Base.{
  ℕ, ◌≡◌, Bool, true, false, Option, none, some, List, [], ◌∷◌, ◌++◌, Text, Eq, ◌==◌, text_eq,
  nat_eq, if◌then◌else◌,
}
use yetti.Base.Lists.{bytes, contains}
use yetti.Base.HashMap.{HashMap, get, insert, remove}
use yetti.Base.Exec.{Result, ok, err, Exec, continue, lift, ◌>>=◌}
use yetti.Base.Str.{split}
use yetti.Base.Join.{join}
use yetti.Foreign.Anyhow.{Anyhow}

pub record PublishMessage : Type 0 where
  pub peers : Text
  pub content : Text

pub record Peer : Type 0 where
  pub address : Text
  pub query : Text

-- `std::net::SocketAddr`: what it prints parses, and has no comma.
pub record Addresses (SocketAddr : Type 0) : Type 0 where
  pub parse : Text → Option SocketAddr
  pub to_string : SocketAddr → Text
  pub is_loopback : SocketAddr → Bool
  pub parse-to_string : (a : SocketAddr) → parse (to_string a) ≡ some a
  pub to_string_comma : (a : SocketAddr) → contains (to_string a) b',' ≡ false
  pub parse_empty : parse [] ≡ none
  pub parse_all : parse (bytes "all") ≡ none

-- `serde_json` on the derived implementations of `PublishMessage`, and on any value.
pub record Serde (ah : Anyhow) : Type 0 where
  pub to_string : PublishMessage → Result ah.Error Text
  pub from_str : Text → Option PublishMessage
  pub is_value : Text → Bool
  pub from_str-to_string :
      (m : PublishMessage) → (t : Text) × (to_string m ≡ ok t) × (from_str t ≡ some m)

-- `futures_channel::mpsc`: a text is queued, or refused when the receiver is gone.
pub record Channels : Type 1 where
  pub State : Type 0
  pub Sender : Type 0
  pub SendError : Type 0
  pub unbounded_send : Sender → Text → Exec State SendError (Unit {0})

-- `tungstenite::Message`, as far as a received one is told apart
pub data Message : Type 0 where
  text : Text → Message
  other : Message

pub data Closed : Type 0 where
  connection_closed : Closed

module _ {SocketAddr : Type 0} ⦃e : Eq SocketAddr⦄ (net : Addresses SocketAddr)
    (ch : Channels) where
  pub record PeerInfo : Type 0 where
    pub is_service : Bool
    pub query : Text
    pub sender : ch.Sender

  abbrev pub PeerMap : Type 0
  PeerMap = HashMap SocketAddr PeerInfo

  unfoldable pub values : PeerMap → List PeerInfo
  values [] = []
  values ((_, i) ∷ m) = i ∷ values m

  unfoldable pub target_peers : List Text → List SocketAddr
  target_peers [] = []
  target_peers (s ∷ ss) = elim (net.parse s) [
    | none ↦ target_peers ss
    | some a ↦ a ∷ target_peers ss
  ]

  unfoldable pub filtered_peers : PeerMap → List SocketAddr → List PeerInfo
  filtered_peers m [] = []
  filtered_peers m (a ∷ rest) = elim (get m a) [
    | none ↦ filtered_peers m rest
    | some i ↦ i ∷ filtered_peers m rest
  ]

  unfoldable pub recipients : PeerMap → Text → List PeerInfo
  unfolding values target_peers filtered_peers
  recipients m peers =
      if peers == bytes "all" then values m else filtered_peers m (target_peers (split b',' peers))

  -- the loop over the recipients, which skips service peers and ignores the errors of sending
  unfoldable pub deliver : Text → List PeerInfo → ch.State → ch.State
  deliver content [] s = s
  deliver content (r ∷ rs) s =
      deliver content rs (if r.is_service then s else (ch.unbounded_send r.sender content s).1)

  -- `PEER_MAP`, empty until the server runs, and the channels
  pub record World : Type 0 where
    pub peer_map : Option PeerMap
    pub channels : ch.State

  -- `accept_connection` up to its first await; `tx` is the new sender
  unfoldable pub register : SocketAddr → ch.Sender → PeerMap → PeerMap
  register peer tx m =
      insert m peer (record { is_service = net.is_loopback peer; query = []; sender = tx })

  unfoldable pub set_query : SocketAddr → Text → PeerMap → PeerMap
  set_query peer query m = elim (get m peer) [
    | none ↦ m
    | some i ↦
        insert m peer (record { is_service = i.is_service; query = query; sender = i.sender })
  ]

  -- the end of `accept_connection`
  unfoldable pub unregister : SocketAddr → PeerMap → PeerMap
  unregister peer m = remove m peer

  module _ {ah : Anyhow} (json : Serde ah) where
    -- the closure that `accept_connection` runs on each incoming message
    unfoldable pub receive : SocketAddr → Message → Exec PeerMap Closed (Unit {0})
    unfolding set_query
    receive peer other m = (ok tt, m)
    receive peer (text t) m =
        if net.is_loopback peer
        then (ok tt, m)
        else if json.is_value t
        then (ok tt, set_query peer t m)
        else (err connection_closed, m)

    unfoldable pub get_peer_map : Exec World ah.Error PeerMap
    get_peer_map w = elim w.peer_map [
      | none ↦ (err (ah.msg (bytes "Peer map not initialized")), w)
      | some m ↦ (ok m, w)
    ]

    unfoldable pub send_message : Text → Exec World ah.Error (Unit {0})
    unfolding get_peer_map recipients deliver
    send_message message w = elim (json.from_str message) [
      | none ↦ (ok tt, w)
      | some p ↦
          (get_peer_map >>= λ m v. (
            ok tt,
            record {
              peer_map = v.peer_map;
              channels = deliver p.content (recipients m p.peers) v.channels;
            },
          ))
            w
    ]

    unfoldable pub send_peers : Text → List Text → Exec World ah.Error (Unit {0})
    unfolding send_message join
    send_peers message peers =
        lift (json.to_string (record { peers = join b',' peers; content = message }))
        >>= send_message

    unfoldable pub send_all : Text → Exec World ah.Error (Unit {0})
    unfolding send_message
    send_all message =
        lift (json.to_string (record { peers = bytes "all"; content = message })) >>= send_message

  unfoldable pub list_peers : PeerMap → List Peer
  list_peers [] = []
  list_peers ((a, i) ∷ m) =
      let rest = list_peers m in
      if i.is_service then rest else record { address = net.to_string a; query = i.query } ∷ rest

  unfoldable pub get_peers : World → List Peer
  unfolding list_peers
  get_peers w = elim w.peer_map [ none ↦ [] | some m ↦ list_peers m ]
