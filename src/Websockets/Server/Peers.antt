-- ===== src/Websockets/Server/Peers.antt =====
-- The peers that a server can have, as its connections come and go, and the broadcast to them
-- (crates/wasi-websockets/src/host/server.rs and default_impl.rs).
use yetti.Base.{
  ◌≡◌, refl, inl, inr, true, false, ◌||◌, some, List, [], ◌∷◌, map, arith, Text, Eq, ◌==◌, text_eq,
  nat_eq, if◌then◌else◌, Option-cases,
}
use yetti.Base.Lists.{bytes, contains, All}
use yetti.Base.HashMap.{get, insert, remove, keys, get-insert, get-remove, map_laws}
use yetti.Base.Exec.{ok}
use yetti.Foreign.Anyhow.{Anyhow}
use yetti.Websockets.Server.{
  Addresses, Serde, Channels, PeerInfo, PeerMap, World, Message, text, other, register, set_query,
  unregister, receive, values, filtered_peers, recipients, deliver, send_peers, send_all,
  list_peers, get_peers,
}
use yetti.Websockets.Server.Laws.{send_peers-to_string, send_message-to_string}

abbrev pub Distinct : {A : Type 0} ⦃e : Eq A⦄ → List A → Type 0
Distinct [] = Unit
Distinct (x ∷ xs) = (contains xs x ≡ false) × Distinct xs

module _ {K V : Type 0} ⦃e : Eq K⦄ where
  contains-keys-insert :
      (m : List (K × V)) (k j : K) (v : V)
      → contains (keys (insert m k v)) j ≡ (k == j || contains (keys m) j)
  contains-keys-insert m k j v = grind (arith, map_laws)

  contains-keys-remove :
      (m : List (K × V)) (k j : K)
      → contains (keys m) j ≡ false
      → contains (keys (remove m k)) j ≡ false
  contains-keys-remove m k j h = grind (arith, map_laws)

  keys-insert-Distinct :
      (m : List (K × V)) (k : K) (v : V) → Distinct (keys m) → Distinct (keys (insert m k v))
  unfolding insert keys
  keys-insert-Distinct [] k v h = (refl, tt)
  keys-insert-Distinct ((j, w) ∷ m) k v h =
      ground (arith, h, keys-insert-Distinct m k v h.1, contains-keys-insert m k j v)

  keys-remove-Distinct :
      (m : List (K × V)) (k : K) → Distinct (keys m) → Distinct (keys (remove m k))
  unfolding remove keys
  keys-remove-Distinct [] k h = tt
  keys-remove-Distinct ((j, w) ∷ m) k h =
      ground (arith, h, keys-remove-Distinct m k h.1, contains-keys-remove m k j h.0)

module _ {SocketAddr : Type 0} ⦃e : Eq SocketAddr⦄ (net : Addresses SocketAddr)
    (ch : Channels) where
  -- Each peer is marked as a service exactly if its address is a loopback address.
  abbrev HasOrigin : PeerMap net ch → Type 0
  HasOrigin m =
      (a : SocketAddr) (i : PeerInfo net ch) → get m a ≡ some i → i.is_service ≡ net.is_loopback a

  abbrev pub IsValid : PeerMap net ch → Type 0
  IsValid m = Distinct (keys m) × HasOrigin m

  -- The entry of a map, at every place of the list `n`.
  abbrev Holds : PeerMap net ch → PeerMap net ch → Type 0
  Holds m n = All (λ (a, i). get m a ≡ some i) n

  Holds-cons :
      (m n : PeerMap net ch) (a : SocketAddr) (i : PeerInfo net ch)
      → contains (keys n) a ≡ false
      → Holds m n
      → Holds ((a, i) ∷ m) n
  unfolding get keys
  Holds-cons m [] a i h all = tt
  Holds-cons m ((b, j) ∷ n) a i h all =
      (ground (arith, h, all.0), Holds-cons m n a i (ground (arith, h)) all.1)

  Distinct-Holds : (m : PeerMap net ch) → Distinct (keys m) → Holds m m
  unfolding get keys
  Distinct-Holds [] h = tt
  Distinct-Holds ((a, i) ∷ m) h = (ground arith, Holds-cons m m a i h.0 (Distinct-Holds m h.1))

  listed : PeerMap net ch → List SocketAddr
  listed [] = []
  listed ((a, i) ∷ m) = let rest = listed m in if i.is_service then rest else a ∷ rest

  map-address-list_peers :
      (m : PeerMap net ch)
      → map (λ p. p.address) (list_peers net ch m) ≡ map net.to_string (listed m)
  unfolding list_peers listed
  map-address-list_peers [] = refl
  map-address-list_peers ((a, i) ∷ m) = ground (arith, map-address-list_peers m)

  deliver-listed :
      (message : Text) (m n : PeerMap net ch) (s : ch.State)
      → Holds m n
      → deliver net ch message (filtered_peers net ch m (listed n)) s
        ≡ deliver net ch message (values net ch n) s
  unfolding deliver listed values filtered_peers
  deliver-listed message m [] s h = refl
  deliver-listed message m ((a, i) ∷ n) s h = ground (
    arith,
    h.0,
    deliver-listed message m n s h.1,
    deliver-listed message m n (ch.unbounded_send i.sender message s).1 h.1,
  )

  module _ {ah : Anyhow} (json : Serde ah) where
    -- What the tasks of the connections do to the map, in any order.
    pub data Step : PeerMap net ch → PeerMap net ch → Type 0 where
      registered :
          (m : PeerMap net ch) (peer : SocketAddr) (tx : ch.Sender)
          → Step m (register net ch peer tx m)
      received :
          (m : PeerMap net ch) (peer : SocketAddr) (msg : Message)
          → Step m (receive net ch json peer msg m).1
      unregistered : (m : PeerMap net ch) (peer : SocketAddr) → Step m (unregister net ch peer m)

    pub data Reachable : PeerMap net ch → Type 0 where
      started : Reachable []
      stepped : {m m' : PeerMap net ch} → Reachable m → Step m m' → Reachable m'

    insert-IsValid :
        (m : PeerMap net ch) (peer : SocketAddr) (i : PeerInfo net ch)
        → i.is_service ≡ net.is_loopback peer
        → IsValid m
        → IsValid (insert m peer i)
    insert-IsValid m peer i service (distinct, origin) = (
      keys-insert-Distinct m peer i distinct,
      λ a j h. grind (arith, get-insert, service, origin a j),
    )

    register-IsValid :
        (m : PeerMap net ch) (peer : SocketAddr) (tx : ch.Sender)
        → IsValid m
        → IsValid (register net ch peer tx m)
    unfolding register
    register-IsValid m peer tx = insert-IsValid m peer _ refl

    set_query-IsValid :
        (m : PeerMap net ch) (peer : SocketAddr) (query : Text)
        → IsValid m
        → IsValid (set_query net ch peer query m)
    unfolding set_query
    set_query-IsValid m peer query valid = elim (Option-cases (get m peer)) [
      | inl h ↦ ground (arith, h, valid)
      | inr (i, h) ↦ ground (
        arith,
        h,
        insert-IsValid m peer
            (record { is_service = i.is_service; query = query; sender = i.sender })
            (valid.1 peer i h) valid,
      )
    ]

    unregister-IsValid :
        (m : PeerMap net ch) (peer : SocketAddr) → IsValid m → IsValid (unregister net ch peer m)
    unfolding unregister
    unregister-IsValid m peer (distinct, origin) =
        (keys-remove-Distinct m peer distinct, λ a i h. grind (arith, get-remove, origin a i))

    receive-IsValid :
        (m : PeerMap net ch) (peer : SocketAddr) (msg : Message)
        → IsValid m
        → IsValid (receive net ch json peer msg m).1
    unfolding receive
    receive-IsValid m peer other valid = valid
    receive-IsValid m peer (text t) valid = ground (arith, valid, set_query-IsValid m peer t valid)

    Step-IsValid : {m m' : PeerMap net ch} → Step m m' → IsValid m → IsValid m'
    Step-IsValid (registered m peer tx) = register-IsValid m peer tx
    Step-IsValid (received m peer msg) = receive-IsValid m peer msg
    Step-IsValid (unregistered m peer) = unregister-IsValid m peer

    Reachable-IsValid : {m : PeerMap net ch} → Reachable m → IsValid m
    unfolding keys get
    Reachable-IsValid started = (tt, λ a i h. ground arith)
    Reachable-IsValid (stepped r s) = Step-IsValid s (Reachable-IsValid r)

    -- Whatever connections have come, spoken and gone: a message sent to the peers that are listed is
    -- queued as a broadcast of the message is, for the same peers in the same order.
    pub send_peers-get_peers :
        (message : Text) (w : World net ch) (m : PeerMap net ch)
        → Reachable m
        → w.peer_map ≡ some m
        → send_peers net ch json message (map (λ p. p.address) (get_peers net ch w)) w
          ≡ send_all net ch json message w
    unfolding send_all get_peers recipients text_eq
    send_peers-get_peers message w m reachable h =
        let valid = Reachable-IsValid reachable in
        grind (
          arith,
          h,
          map-address-list_peers m,
          send_peers-to_string net ch json message (listed m) w m h,
          deliver-listed message m m w.channels (Distinct-Holds m valid.0),
          send_message-to_string net ch json (record { peers = bytes "all"; content = message }) w m
              h,
        )

    deliver-loopback :
        (message : Text) (m : PeerMap net ch) (addrs : List SocketAddr) (s : ch.State)
        → HasOrigin m
        → All (λ a. net.is_loopback a ≡ true) addrs
        → deliver net ch message (filtered_peers net ch m addrs) s ≡ s
    unfolding deliver filtered_peers
    deliver-loopback message m [] s origin all = refl
    deliver-loopback message m (a ∷ addrs) s origin all = elim (Option-cases (get m a)) [
      | inl h ↦ ground (arith, h, deliver-loopback message m addrs s origin all.1)
      | inr (i, h) ↦
          ground (arith, h, all.0, origin a i h, deliver-loopback message m addrs s origin all.1)
    ]

    -- Whatever connections have come, spoken and gone: a message sent to loopback addresses, those of
    -- the service's own connections, succeeds and is queued for nobody.
    pub send_peers-loopback :
        (message : Text) (addrs : List SocketAddr) (w : World net ch) (m : PeerMap net ch)
        → Reachable m
        → w.peer_map ≡ some m
        → All (λ a. net.is_loopback a ≡ true) addrs
        → send_peers net ch json message (map net.to_string addrs) w ≡ (ok tt, w)
    send_peers-loopback message addrs w m reachable h all = grind (
      arith,
      h,
      send_peers-to_string net ch json message addrs w m h,
      deliver-loopback message m addrs w.channels (Reachable-IsValid reachable).1 all,
    )
