-- ===== src/Tests/Websockets.antt =====
-- The theorems on `wasi:websockets` at a service, two clients and a registry made by their connections.
use yetti.Base.{
  ℕ, zero, suc, ◌+◌, ◌≡◌, refl, Bool, true, false, Option, none, some, List, [], ◌∷◌, ◌++◌, map,
  Text, nat_eq, text_eq, ◌==◌, if◌then◌else◌, arith,
}
use yetti.Base.Lists.{bytes, replicate, contains}
use yetti.Base.HashMap.{get, insert}
use yetti.Base.Exec.{ok}
use yetti.Foreign.Anyhow.{chained}
use yetti.Foreign.ResourceTable.{ResourceTable, growing}
use yetti.Websockets.Host
use yetti.Websockets.Host.{WebSocketsDefault, View, get_server, drop}
use yetti.Websockets.Host.Laws.{get_server-broadcast}
use yetti.Websockets.Server.{
  PublishMessage, Peer, Addresses, Serde, Channels, PeerMap, World, text, register, receive,
  send_peers, send_all, get_peers,
}
use yetti.Websockets.Server.Peers.{
  Reachable, started, stepped, registered, received, send_peers-get_peers, send_peers-loopback,
}

-- An address prints as ones, one more than its number; number 0 is the loopback address.
abbrev to_string : ℕ → Text
to_string n = b'1' ∷ replicate n b'1'

abbrev count : Text → Option ℕ
count [] = some 0
count (c ∷ s) = if c == b'1' then elim (count s) [ none ↦ none | some n ↦ some (suc n) ] else none

abbrev parse : Text → Option ℕ
parse [] = none
parse (c ∷ s) = if c == b'1' then count s else none

count-replicate : (n : ℕ) → count (replicate n b'1') ≡ some n
unfolding nat_eq
count-replicate zero = refl
count-replicate (suc n) = ground (arith, count-replicate n)

contains-replicate : (n : ℕ) → contains {A = ℕ} (replicate n b'1') b',' ≡ false
unfolding nat_eq
contains-replicate zero = refl
contains-replicate (suc n) = ground (arith, contains-replicate n)

parse-to_string : (n : ℕ) → parse (to_string n) ≡ some n
unfolding nat_eq
parse-to_string n = ground (arith, count-replicate n)

to_string_comma : (n : ℕ) → contains (to_string n) b',' ≡ false
unfolding nat_eq
to_string_comma n = ground (arith, contains-replicate n)

parse_all : parse (bytes "all") ≡ none
unfolding nat_eq
parse_all = refl

abbrev net : Addresses ℕ
net = record {
  parse = parse;
  to_string = to_string;
  is_loopback = λ n. n == 0;
  parse-to_string = parse-to_string;
  to_string_comma = to_string_comma;
  parse_empty = refl;
  parse_all = parse_all;
}

-- A message is written as its peers, each byte one higher, a zero, and its content.
abbrev encode : Text → Text → Text
encode [] content = 0 ∷ content
encode (c ∷ peers) content = suc c ∷ encode peers content

abbrev decode : Text → Option PublishMessage
decode [] = none
decode (zero ∷ s) = some (record { peers = []; content = s })
decode (suc c ∷ s) = elim (decode s) [
  | none ↦ none
  | some m ↦ some (record { peers = c ∷ m.peers; content = m.content })
]

decode-encode :
    (peers content : Text)
    → decode (encode peers content) ≡ some (record { peers = peers; content = content })
decode-encode [] content = refl
decode-encode (c ∷ peers) content = ground (arith, decode-encode peers content)

abbrev json : Serde chained
json = record {
  to_string = λ m. ok (encode m.peers m.content);
  from_str = decode;
  is_value = λ t. true;
  from_str-to_string = λ m. (encode m.peers m.content, refl, decode-encode m.peers m.content);
}

-- The messages sent so far, the latest first, each with the number of its channel.
abbrev ch : Channels
ch = record {
  State = List (ℕ × Text);
  Sender = ℕ;
  SendError = Unit {0};
  unbounded_send = λ tx t s. (ok tt, (tx, t) ∷ s);
}

-- A service at address 0 and clients at 1 and 2, the first of which has set its query.
abbrev m3 : PeerMap net ch
m3 =
    (receive net ch json 1 (text (bytes "{}"))
      (register net ch 2 12 (register net ch 1 11 (register net ch 0 10 [])))).1

m3-Reachable : Reachable net ch json m3
m3-Reachable =
    stepped
      (stepped (stepped (stepped started (registered [] 0 10)) (registered _ 1 11))
        (registered _ 2 12))
      (received _ 1 (text (bytes "{}")))

abbrev w3 : World net ch
w3 = record { peer_map = some m3; channels = [] }

-- The two clients are queued the text, in the order of the list; nobody is at address 7.
sent :
    (send_peers net ch json
      (bytes "hi")
      (to_string 2 ∷ to_string 7 ∷ to_string 1 ∷ [])
      w3).1.channels
    ≡ (11, bytes "hi") ∷ (12, bytes "hi") ∷ []
unfolding send_peers text_eq yetti.Base.Str.split nat_eq get receive register insert
sent = refl

send_peers-get_peers_example :
    send_peers net ch json (bytes "hi") (map (λ p. p.address) (get_peers net ch w3)) w3
    ≡ send_all net ch json (bytes "hi") w3
send_peers-get_peers_example = send_peers-get_peers net ch json (bytes "hi") w3 m3 m3-Reachable refl

send_peers-loopback_example :
    send_peers net ch json (bytes "hi") (map to_string (0 ∷ 0 ∷ [])) w3 ≡ (ok tt, w3)
unfolding nat_eq
send_peers-loopback_example =
    send_peers-loopback net ch json (bytes "hi") (0 ∷ 0 ∷ []) w3 m3 m3-Reachable refl
      (refl, (refl, tt))

abbrev T : ResourceTable WebSocketsDefault
T = growing WebSocketsDefault

abbrev v3 : View net ch json T
v3 = record { world = w3; table = [] }

abbrev v4 : View net ch json T
v4 = (get_server net ch json T v3).1

got : get_server net ch json T v3 ≡ (ok 0, v4)
unfolding get_server yetti.Foreign.ResourceTable.push_entry yetti.Foreign.ResourceTable.fresh
got = refl

get_server-broadcast_example :
    (peers : List Peer) × (Host.get_peers net ch json T 0 v4 ≡ (ok peers, v4))
    × (Host.send_peers net ch json T 0 (bytes "hi") (map (λ p. p.address) peers) v4
        ≡ Host.send_all net ch json T 0 (bytes "hi") v4)
    × (Host.send_all net ch json T 0 (bytes "hi") (drop net ch json T 0 v4).1 ≡ (
      (send_all net ch json (bytes "hi") w3).0,
      record v4 { world = (send_all net ch json (bytes "hi") w3).1 },
    ))
get_server-broadcast_example =
    get_server-broadcast net ch json T v3 v4 0 m3 (bytes "hi") got refl m3-Reachable
