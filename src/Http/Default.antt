-- ===== src/Http/Default.antt =====
-- The HTTP client of the host: crates/wasi-http/src/host/default_impl.rs. The crates `reqwest` and
-- `base64ct` are parameters. A header's name is its lower-case text, as `http` compares it.
pub mod Laws
use yetti.Base.{Bool, Option, none, some, List, [], ◌∷◌, Text, Bytes, if◌then◌else◌}
use yetti.Base.Lists.{bytes}
use yetti.Base.Exec.{Result, ok, err, Exec, map_err, lift, continue, ◌>>=◌}
use yetti.Foreign.Anyhow.{Anyhow}
use yetti.Foreign.Http.{Http, Response}
use yetti.Foreign.Uri.{and_then}

-- `FORBIDDEN_HEADERS`
abbrev pub forbidden_headers : List Text
forbidden_headers =
    bytes "connection"
    ∷ bytes "host"
    ∷ bytes "proxy-authenticate"
    ∷ bytes "proxy-authorization"
    ∷ bytes "transfer-encoding"
    ∷ bytes "upgrade"
    ∷ bytes "keep-alive"
    ∷ bytes "proxy-connection"
    ∷ bytes "http2-settings"
    ∷ []

abbrev pub client_cert : Text
client_cert = bytes "client-cert"

abbrev pub host : Text
host = bytes "host"

-- The codes of `wasi:http` that the client reports.
pub data ErrorCode : Type 0 where
  internal_error : Option Text → ErrorCode
  connection_timeout connection_refused http_request_uri_invalid : ErrorCode

module _ {ah : Anyhow} (http : Http ah) where
  -- A request, its URI as text, and its body once it is read.
  pub record Request : Type 0 where
    pub method : Text
    pub uri : Text
    pub headers : http.HeaderMap
    pub body : Result Text Bytes

  pub record Reqwest : Type 1 where
    pub Error : Type 0
    pub is_timeout : Error → Bool
    pub is_connect : Error → Bool
    pub is_request : Error → Bool
    pub to_string : Error → Text
    -- `Base64::decode_vec` and `Identity::from_pem`, with the text of their errors
    pub decode_vec : Text → Result Text Bytes
    pub Identity : Type 0
    pub from_pem : Bytes → Result Text Identity
    -- a client with an identity, if there is one, and the headers of all its requests
    pub Client : Type 0
    pub build : Option Identity → http.HeaderMap → Result Error Client
    pub Network : Type 0
    pub send : Client → Text → Text → Bytes → Exec Network Error (Response http)

  module _ (reqwest : Reqwest) where
    abbrev pub internal : {A : Type 0} → Result Text A → Result ErrorCode A
    internal r = map_err (λ t. internal_error (some t)) r

    unfoldable pub reqwest_error : reqwest.Error → ErrorCode
    reqwest_error e =
        if reqwest.is_timeout e
        then connection_timeout
        else if reqwest.is_connect e
        then connection_refused
        else if reqwest.is_request e
        then http_request_uri_invalid
        else internal_error (some (reqwest.to_string e))

    abbrev to_str : http.HeaderValue → Result ErrorCode Text
    to_str v = map_err (λ e. internal_error (some (ah.to_string e))) (http.to_str v)

    identity_of : Option http.HeaderValue → Result ErrorCode (Option reqwest.Identity)
    identity_of none = ok none
    identity_of (some encoded_cert) = and_then (to_str encoded_cert) λ encoded.
        and_then (internal (reqwest.decode_vec encoded))
          λ pem. and_then (internal (reqwest.from_pem pem)) λ identity. ok (some identity)

    -- the identity that the header `Client-Cert` holds, if there is one
    unfoldable pub certificate : http.HeaderMap → Result ErrorCode (Option reqwest.Identity)
    unfolding identity_of
    certificate headers = identity_of (http.get headers client_cert)

    unfoldable pub remove_each : List Text → http.HeaderMap → http.HeaderMap
    remove_each [] headers = headers
    remove_each (name ∷ names) headers = remove_each names (http.remove headers name)

    abbrev allowed : Response http → Response http
    allowed response = record response { headers = remove_each forbidden_headers response.headers }

    abbrev from_reqwest :
        Exec reqwest.Network reqwest.Error (Response http)
        → Exec reqwest.Network ErrorCode (Response http)
    from_reqwest m net = let (r, net') = m net in (map_err reqwest_error r, net')

    unfoldable pub send_request : Request → Exec reqwest.Network ErrorCode (Response http)
    unfolding certificate
    send_request request = do
      collected ← lift (internal request.body)
      identity ← lift (certificate request.headers)
      client ← lift (
          map_err reqwest_error
            (reqwest.build identity (http.remove (http.remove request.headers client_cert) host)))
      response ← from_reqwest (reqwest.send client request.method request.uri collected)
      lift (ok (allowed response))
