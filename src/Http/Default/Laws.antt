-- ===== src/Http/Default/Laws.antt =====
-- What a request of the host's client sends and returns (crates/wasi-http/src/host/default_impl.rs).
use yetti.Base.{
  ◌≡◌, refl, Option, none, some, List, [], ◌∷◌, arith, Text, Bytes, text_eq, ◌==◌, if◌then◌else◌,
}
use yetti.Base.Lists.{contains}
use yetti.Base.Exec.{ok, err}
use yetti.Foreign.Anyhow.{Anyhow}
use yetti.Foreign.Http.{Http, Response}
use yetti.Http.Default.{
  Request, Reqwest, internal_error, forbidden_headers, client_cert, host, certificate, remove_each,
  send_request,
}

module _ {ah : Anyhow} (http : Http ah) (reqwest : Reqwest http) where
  get-remove_each :
      (names : List Text) (headers : http.HeaderMap) (name : Text)
      → http.get (remove_each http reqwest names headers) name
        ≡ (if contains names name then none else http.get headers name)
  unfolding remove_each
  get-remove_each [] headers name = refl
  get-remove_each (n ∷ names) headers name =
      ground
        (arith, get-remove_each names (http.remove headers n) name, http.get-remove headers n name)

  get-remove_two :
      (headers : http.HeaderMap) (a b name : Text)
      → http.get (http.remove (http.remove headers a) b) name
        ≡ (if name == a then none else if name == b then none else http.get headers name)
  get-remove_two headers a b name =
      ground (arith, http.get-remove (http.remove headers a) b name, http.get-remove headers a name)

  module _ (request : Request http) (identity : Option reqwest.Identity)
      (certified : certificate http reqwest request.headers ≡ ok identity) (collected : Bytes)
      (read : request.body ≡ ok collected) (net : reqwest.Network) where
    -- A request whose body is read and whose certificate, if it carries one, is well-formed, sent by
    -- a client that builds: the client has the certificate's identity and the request's headers
    -- without `Client-Cert` and `Host`; the response is the server's, without the forbidden headers
    -- and with every other header as it came.
    pub send_request_lem :
        (headers : http.HeaderMap)
        → headers ≡ http.remove (http.remove request.headers client_cert) host
        → (client : reqwest.Client) (response : Response http) (net' : reqwest.Network)
        → reqwest.build identity headers ≡ ok client
        → reqwest.send client request.method request.uri collected net ≡ (ok response, net')
        → ((name : Text)
            → http.get headers name ≡ (
                if name == client_cert
                then none
                else if name == host
                then none
                else http.get request.headers name))
          × (kept : http.HeaderMap) × (send_request http reqwest request net
              ≡ (ok (record response { headers = kept }), net'))
          × ((name : Text)
              → http.get kept name ≡ (
                  if contains forbidden_headers name then none else http.get response.headers name))
    unfolding send_request
    send_request_lem headers e client response net' built sent = (
      λ name. rw e (get-remove_two request.headers client_cert host name),
      remove_each http reqwest forbidden_headers response.headers,
      rw (read, certified, ← e, built, sent),
      get-remove_each forbidden_headers response.headers,
    )

  -- What keeps a request from being sent, with the message of the error.
  pub data Fails (request : Request http) : Text → Type 0 where
    unread : (message : Text) → request.body ≡ err message → Fails request message
    no_text :
        (collected : Bytes) (cert : http.HeaderValue) (e : ah.Error)
        → request.body ≡ ok collected
        → http.get request.headers client_cert ≡ some cert
        → http.to_str cert ≡ err e
        → Fails request (ah.to_string e)
    no_base64 :
        (collected : Bytes) (cert : http.HeaderValue) (encoded message : Text)
        → request.body ≡ ok collected
        → http.get request.headers client_cert ≡ some cert
        → http.to_str cert ≡ ok encoded
        → reqwest.decode_vec encoded ≡ err message
        → Fails request message
    no_pem :
        (collected : Bytes) (cert : http.HeaderValue) (encoded : Text) (pem : Bytes)
        (message : Text)
        → request.body ≡ ok collected
        → http.get request.headers client_cert ≡ some cert
        → http.to_str cert ≡ ok encoded
        → reqwest.decode_vec encoded ≡ ok pem
        → reqwest.from_pem pem ≡ err message
        → Fails request message

  -- A request whose body cannot be read, or whose header `Client-Cert` is no text, no base 64 or no
  -- certificate, fails with an internal error that has the message of the first of these, and nothing
  -- is sent.
  send_request_unsent :
      (request : Request http) (net : reqwest.Network) (message : Text)
      → Fails request message
      → send_request http reqwest request net ≡ (err (internal_error (some message)), net)
  unfolding send_request
  send_request_unsent request net message (unread _ h) = rw h
  send_request_unsent request net message (no_text collected cert e h h1 h2) = rw (h, h1, h2)
  send_request_unsent request net message (no_base64 collected cert encoded _ h h1 h2 h3) =
      rw (h, h1, h2, h3)
  send_request_unsent request net message (no_pem collected cert encoded pem _ h h1 h2 h3 h4) =
      rw (h, h1, h2, h3, h4)
