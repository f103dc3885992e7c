-- ===== src/Tests/Upgrade.antt =====
-- The upgrade of a request with the headers of a browser, and its theorem there.
use yetti.Base.{ℕ, ◌≡◌, ◌==◌, refl, [], ◌∷◌, nat_eq, text_eq}
use yetti.Base.Lists.{bytes}
use yetti.Base.HashMap
use yetti.Base.Exec.{ok}
use yetti.Foreign.Http.{plain}
use yetti.Websockets.Upgrade.{Handshakes, Request, switching_protocols, handle_request}

-- An accept key that is the key.
abbrev handshakes : Handshakes plain
handshakes = record {
  as_bytes = λ v. v;
  derive_accept_key = λ b. b;
  accept_value = λ b. b;
  from_str-derive_accept_key = λ b. refl;
  upgrade_value = bytes "Upgrade";
  websocket_value = bytes "websocket";
}

abbrev request : Request plain
request = record {
  method = bytes "GET";
  version = 11;
  headers =
      (bytes "connection", bytes "keep-alive, Upgrade")
      ∷ (bytes "upgrade", bytes "WebSocket")
      ∷ (bytes "sec-websocket-version", bytes "13")
      ∷ (bytes "sec-websocket-key", bytes "k")
      ∷ [];
  uri_eq = λ t. bytes "/" == t;
}

upgraded :
    handle_request plain handshakes {SocketAddr = ℕ} request 7 (4 ∷ [])
    ≡ (ok (switching_protocols plain handshakes request (bytes "k")), 4 ∷ 7 ∷ [])
unfolding handle_request text_eq HashMap.get nat_eq
upgraded = refl
