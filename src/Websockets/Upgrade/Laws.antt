-- ===== src/Websockets/Upgrade/Laws.antt =====
-- Which requests become sockets (crates/wasi-websockets/src/host/server.rs).
use yetti.Base.{◌≤◌, ◌≡◌, ◌⊎◌, true, some, List, [], ◌∷◌, Text, text_eq}
use yetti.Base.Lists.{bytes}
use yetti.Base.Str.{to_ascii_lowercase}
use yetti.Foreign.Anyhow.{Anyhow}
use yetti.Foreign.Http.{Http}
use yetti.Websockets.Upgrade.{
  connection, upgrade, sec_websocket_key, sec_websocket_version, split_tokens, Handshakes, Request,
  text_of,
}

-- Whether one of the tokens is `upgrade`, in any case.
abbrev pub HasUpgrade : List Text → Type 0
HasUpgrade [] = ⊥
HasUpgrade (p ∷ ps) = (to_ascii_lowercase p ≡ bytes "upgrade") ⊎ HasUpgrade ps

module _ {ah : Anyhow} (http : Http ah) (hs : Handshakes http) where
  -- The opening handshake of a client (RFC 6455, 4.2.1) at the path `/`.
  pub record IsHandshake (req : Request http) : Type 0 where
    pub method : req.method ≡ bytes "GET"
    pub version : 11 ≤ req.version
    pub connection_text : Text
    pub connection_is : text_of http (http.get req.headers connection) ≡ some connection_text
    pub connection_tokens : HasUpgrade (split_tokens connection_text)
    pub upgrade_text : Text
    pub upgrade_is : text_of http (http.get req.headers upgrade) ≡ some upgrade_text
    pub upgrade_token : to_ascii_lowercase upgrade_text ≡ bytes "websocket"
    pub version_value : http.HeaderValue
    pub version_is : http.get req.headers sec_websocket_version ≡ some version_value
    pub version_bytes : hs.as_bytes version_value ≡ bytes "13"
    pub key : http.HeaderValue
    pub key_is : http.get req.headers sec_websocket_key ≡ some key
    pub uri : req.uri_eq (bytes "/") ≡ true
