-- ===== src/Tests/HttpHost.antt =====
-- The theorems on the HTTP server and client of the host, at plain texts.
use yetti.Base.{
  ℕ, suc, ◌≡◌, refl, false, Option, none, some, List, [], ◌∷◌, Text, Bytes, text_eq, nat_eq, ◌==◌,
  if◌then◌else◌,
}
use yetti.Base.Lists.{bytes, contains, All}
use yetti.Base.HashMap
use yetti.Base.Exec.{ok, err}
use yetti.Base.Str.{split, trim, strip_prefix}
use yetti.Foreign.Anyhow.{chained}
use yetti.Foreign.Http.{Http, Response, plain}
use yetti.Foreign.Uri.{PlainUri, plain_uris}
use yetti.Http.Server.{Request, Guest, page, forwarded_header, host_header, fix_request, respond}
use yetti.Http.Server.Forwarded.{Readable}
use yetti.Http.Server.Laws.{path_of, fix_request-forwarded, no_host, respond_unaddressed}
use yetti.Http.Default
use yetti.Http.Default.{
  Reqwest, internal_error, forbidden_headers, client_cert, host, certificate, send_request,
}
use yetti.Http.Default.Laws.{send_request_lem}

abbrev target : PlainUri
target = record { scheme = none; authority = none; path_and_query = bytes "/a?b" }

abbrev elements : Text
elements = bytes "for=x; host=a.b ;proto=https;host=c.d"

abbrev proxied : Request chained plain plain_uris (Unit {0})
proxied = record {
  uri = target;
  headers = (host_header, bytes "localhost") ∷ (forwarded_header, elements) ∷ [];
  rest = tt;
}

abbrev bare : Request chained plain plain_uris (Unit {0})
bare = record { uri = target; headers = []; rest = tt }

-- The last host counts.
proxied_test :
    fix_request chained plain plain_uris proxied
    ≡ ok (record proxied {
      uri = record {
        scheme = some (bytes "https");
        authority = some (bytes "c.d");
        path_and_query = bytes "/a?b";
      };
    })
unfolding fix_request HashMap.get text_eq nat_eq
proxied_test = refl

readable : All (Readable chained plain plain_uris) (split b';' elements)
unfolding split nat_eq strip_prefix trim
readable = (
  (tt, tt),
  (((bytes "a.b", refl), tt), ((tt, (bytes "https", refl)), (((bytes "c.d", refl), tt), tt))),
)

fix_request-forwarded_example :
    (uri : PlainUri) × (a : Text) × (s : Text) × (fix_request chained plain plain_uris proxied
      ≡ ok (record proxied { uri = uri }))
    × (plain_uris.parse_authority (bytes "c.d") ≡ ok a)
    × (uri.authority ≡ some a)
    × (plain_uris.parse_scheme (bytes "https") ≡ ok s)
    × (uri.scheme ≡ some s)
    × (◌≡◌ {A = Option Text}
        (some uri.path_and_query)
        (some (path_of chained plain plain_uris target)))
unfolding HashMap.get text_eq split nat_eq strip_prefix trim
fix_request-forwarded_example =
    fix_request-forwarded chained plain plain_uris proxied elements elements refl refl readable
      (bytes "c.d") (bytes "https") refl refl

-- A guest that counts its requests.
abbrev guest : Guest chained plain plain_uris (Unit {0})
guest = record {
  State = ℕ;
  forward = λ request n. (ok (record { status = 200; headers = []; body = [] }), suc n);
}

respond_unaddressed_example : respond chained plain plain_uris guest bare 3 ≡ (
  ok (record {
    status = 500;
    headers = (bytes "content-type", bytes "text/html; charset=UTF-8") ∷ [];
    body = page;
  }),
  3,
)
unfolding HashMap.get yetti.Foreign.Http.add_last
respond_unaddressed_example =
    respond_unaddressed chained plain plain_uris bare guest 3 500 (bytes "text/html; charset=UTF-8")
      (no_host refl refl) refl refl

-- A server that counts its requests and returns a header that is forbidden.
abbrev answer : Response plain
answer = record {
  status = 200;
  headers = (bytes "upgrade", bytes "x") ∷ (bytes "etag", bytes "y") ∷ [];
  body = [];
}

abbrev reqwest : Reqwest plain
reqwest = record {
  Error = Text;
  is_timeout = λ e. false;
  is_connect = λ e. false;
  is_request = λ e. false;
  to_string = λ e. e;
  decode_vec = λ t. if t == bytes "?" then err (bytes "no base64") else ok t;
  Identity = Bytes;
  from_pem = λ b. ok b;
  Client = Option Bytes × List (Text × Text);
  build = λ identity headers. ok (identity, headers);
  Network = ℕ;
  send = λ client method uri body n. (ok answer, suc n);
}

abbrev outgoing : Text → Default.Request plain
outgoing cert = record {
  method = bytes "GET";
  uri = bytes "http://c.d/";
  headers = (host, bytes "c.d") ∷ (client_cert, cert) ∷ (bytes "accept", bytes "z") ∷ [];
  body = ok [];
}

abbrev sent_headers : List (Text × Text)
sent_headers = plain.remove (plain.remove (outgoing (bytes "pem")).headers client_cert) host

send_request_lem_example :
    ((name : Text)
      → HashMap.get sent_headers name ≡ (
          if name == client_cert
          then none
          else if name == host
          then none
          else HashMap.get (outgoing (bytes "pem")).headers name))
    × (kept : List (Text × Text)) × (send_request plain reqwest (outgoing (bytes "pem")) 3
        ≡ (ok (record answer { headers = kept }), 4))
    × ((name : Text)
        → HashMap.get kept name
          ≡ (if contains forbidden_headers name then none else HashMap.get answer.headers name))
unfolding certificate HashMap.get text_eq
send_request_lem_example =
    send_request_lem plain reqwest (outgoing (bytes "pem")) (some (bytes "pem")) refl [] refl 3
      sent_headers refl (some (bytes "pem"), sent_headers) answer 4 refl refl
