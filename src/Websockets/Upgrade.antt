-- ===== src/Websockets/Upgrade.antt =====
-- The upgrade of a request to a socket: `handle_request` of crates/wasi-websockets/src/host/server.rs.
-- The connection that the spawned task then serves is in yetti.Websockets.Server.
pub mod Laws
use yetti.Base.{
  ℕ, Bool, true, false, not, ◌||◌, ◌≡◌, Option, none, some, List, [], ◌∷◌, ◌++◌, Text, Bytes,
  text_eq, nat_eq, ◌==◌, leb, if◌then◌else◌,
}
use yetti.Base.Lists.{bytes}
use yetti.Base.HashMap.{is_some}
use yetti.Base.Exec.{Result, ok, err, Exec}
use yetti.Base.Str.{to_ascii_lowercase}
use yetti.Foreign.Anyhow.{Anyhow}
use yetti.Foreign.Http.{Http}

abbrev pub connection : Text
connection = bytes "connection"

abbrev pub upgrade : Text
upgrade = bytes "upgrade"

abbrev pub sec_websocket_key : Text
sec_websocket_key = bytes "sec-websocket-key"

abbrev pub sec_websocket_version : Text
sec_websocket_version = bytes "sec-websocket-version"

abbrev pub sec_websocket_accept : Text
sec_websocket_accept = bytes "sec-websocket-accept"

abbrev onto_first : ℕ → List Text → List Text
onto_first c [] = (c ∷ []) ∷ []
onto_first c (p ∷ ps) = (c ∷ p) ∷ ps

-- `h.split([' ', ','])`
unfoldable pub split_tokens : Text → List Text
split_tokens [] = [] ∷ []
split_tokens (c ∷ s) =
    let rest = split_tokens s in if c == b' ' || c == b',' then [] ∷ rest else onto_first c rest

unfoldable pub eq_ignore_ascii_case : Text → Text → Bool
unfolding to_ascii_lowercase
eq_ignore_ascii_case s t = to_ascii_lowercase s == to_ascii_lowercase t

-- `any(|p| p.eq_ignore_ascii_case("Upgrade"))`
unfoldable pub any_upgrade : List Text → Bool
unfolding eq_ignore_ascii_case
any_upgrade [] = false
any_upgrade (p ∷ ps) = eq_ignore_ascii_case p (bytes "Upgrade") || any_upgrade ps

module _ {ah : Anyhow} (http : Http ah) where
  -- The bytes of a header value, and the accept key of a key, whose text is a header value.
  pub record Handshakes : Type 0 where
    pub as_bytes : http.HeaderValue → Bytes
    pub derive_accept_key : Bytes → Text
    pub accept_value : Bytes → http.HeaderValue
    pub from_str-derive_accept_key :
        (b : Bytes) → http.from_str (derive_accept_key b) ≡ ok (accept_value b)
    -- `HeaderValue::from_static` of `Upgrade` and of `websocket`
    pub upgrade_value : http.HeaderValue
    pub websocket_value : http.HeaderValue

  -- A request, its version as ten times the number, and the comparison of its URI with a text
  -- (`Uri: PartialEq<str>`).
  pub record Request : Type 0 where
    pub method : Text
    pub version : ℕ
    pub headers : http.HeaderMap
    pub uri_eq : Text → Bool

  -- A response with its status as a number; the version is that of the library unless it is set.
  pub record Response : Type 0 where
    pub status : ℕ
    pub version : Option ℕ
    pub headers : http.HeaderMap
    pub body : Text

  -- `and_then(|h| h.to_str().ok())`
  abbrev pub text_of : Option http.HeaderValue → Option Text
  text_of none = none
  text_of (some v) = elim (http.to_str v) [ ok t ↦ some t | err e ↦ none ]

  abbrev pub is_upgrade : Option Text → Bool
  unfolding split_tokens any_upgrade
  is_upgrade none = false
  is_upgrade (some t) = any_upgrade (split_tokens t)

  abbrev pub is_websocket : Option Text → Bool
  unfolding eq_ignore_ascii_case
  is_websocket none = false
  is_websocket (some t) = eq_ignore_ascii_case t (bytes "websocket")

  module _ (hs : Handshakes) where
    abbrev pub is_13 : Option http.HeaderValue → Bool
    is_13 none = false
    is_13 (some h) = hs.as_bytes h == bytes "13"

    -- the condition under which a request is not upgraded
    unfoldable pub is_refused : Request → Bool
    unfolding is_upgrade is_websocket
    is_refused req =
        not (req.method == bytes "GET")
        || not (leb 11 req.version)
        || not (is_upgrade (text_of (http.get req.headers connection)))
        || not (is_websocket (text_of (http.get req.headers upgrade)))
        || not (is_13 (http.get req.headers sec_websocket_version))
        || not (is_some (http.get req.headers sec_websocket_key))
        || not (req.uri_eq (bytes "/"))

    abbrev pub bad_request : Response
    bad_request = record {
      status = 400;
      version = none;
      headers = http.empty;
      body = bytes "This service only supports WebSocket connections.\n";
    }

    -- the response of an upgrade, by the parsed accept key
    abbrev pub switching_protocols : Request → http.HeaderValue → Response
    switching_protocols req accept = record {
      status = 101;
      version = some req.version;
      headers =
          http.append
            (http.append (http.append http.empty connection hs.upgrade_value) upgrade
              hs.websocket_value)
            sec_websocket_accept accept;
      body = [];
    }

    abbrev switched : Request → Result ah.Error http.HeaderValue → Result ah.Error Response
    switched req (ok accept) = ok (switching_protocols req accept)
    switched req (err e) = err e

    -- an `unwrap` that panics
    abbrev pub no_key : ah.Error
    no_key = ah.msg (bytes "called `Option::unwrap()` on a `None` value")

    abbrev accept_of : Option http.HeaderValue → Result ah.Error http.HeaderValue
    accept_of none = err no_key
    accept_of (some key) = http.from_str (hs.derive_accept_key (hs.as_bytes key))

    -- The state is the peers whose upgrades are spawned, the first one first; an error is a panic.
    unfoldable pub handle_request :
        {SocketAddr : Type 0} → Request → SocketAddr → Exec (List SocketAddr) ah.Error Response
    unfolding is_refused
    handle_request req addr spawned = if is_refused req then (ok bad_request, spawned) else (
      switched req (accept_of (http.get req.headers sec_websocket_key)),
      spawned ++ addr ∷ [],
    )
