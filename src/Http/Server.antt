-- ===== src/Http/Server.antt =====
-- The HTTP server of the host: crates/wasi-http/src/host/server.rs. The sockets, the instance of the
-- guest and the task that runs it are a parameter.
pub mod Forwarded
pub mod Laws
use yetti.Base.{Option, none, some, List, [], ◌∷◌, ◌++◌, Text, map}
use yetti.Base.Lists.{bytes}
use yetti.Base.Exec.{Result, ok, err, Exec, map_err}
use yetti.Base.Str.{split, trim, strip_prefix}
use yetti.Foreign.Anyhow.{Anyhow}
use yetti.Foreign.Http.{Http, Response}
use yetti.Foreign.Uri.{Uris, and_then}

abbrev pub forwarded_header : Text
forwarded_header = bytes "forwarded"

abbrev pub host_header : Text
host_header = bytes "host"

-- `BODY`
abbrev pub page : Text
page =
    bytes "<!doctype html>\n"
    ++ (bytes "<html>\n"
        ++ (bytes "<head>\n"
            ++ (bytes "    <title>500 Internal Server Error</title>\n"
                ++ (bytes "</head>\n"
                    ++ (bytes "<body>\n"
                        ++ (bytes "    <center>\n"
                            ++ (bytes "        <h1>500 Internal Server Error</h1>\n"
                                ++ (bytes "        <hr>\n"
                                    ++ (bytes "        <pre>Guest error</pre>\n"
                                        ++ (bytes "    </center>\n"
                                            ++ (bytes "</body>\n" ++ (bytes "</html>"))))))))))))

module _ (ah : Anyhow) (http : Http ah) (uris : Uris ah) where
  -- A request; `rest` is its method, its version, its extensions and its body.
  pub record Request (Rest : Type 0) : Type 0 where
    pub uri : uris.Uri
    pub headers : http.HeaderMap
    pub rest : Rest

  abbrev path_or_root : Option uris.PathAndQuery → uris.PathAndQuery
  path_or_root none = uris.root
  path_or_root (some p) = p

  abbrev if_proto : uris.Builder → Option Text → uris.Builder
  if_proto b none = b
  if_proto b (some proto) = uris.set_scheme b proto

  abbrev if_host : uris.Builder → Text → Option Text → uris.Builder
  if_host b tuple none = if_proto b (strip_prefix (bytes "proto=") tuple)
  if_host b tuple (some host) = uris.set_authority b host

  -- the loop over the tuples of the header `Forwarded`
  unfoldable pub each_tuple : List Text → uris.Builder → uris.Builder
  unfolding strip_prefix trim
  each_tuple [] b = b
  each_tuple (tuple ∷ tuples) b =
      each_tuple tuples (if_host b (trim tuple) (strip_prefix (bytes "host=") (trim tuple)))

  abbrev local : uris.Builder → Option http.HeaderValue → Result ah.Error uris.Builder
  local b none = err (ah.msg (bytes "missing host header"))
  local b (some host) =
      and_then (http.to_str host)
        (λ t. ok (uris.set_scheme (uris.set_authority b t) (bytes "http")))

  abbrev behind_proxy :
      http.HeaderMap → uris.Builder → Option http.HeaderValue → Result ah.Error uris.Builder
  behind_proxy headers b none = local b (http.get headers host_header)
  behind_proxy headers b (some forwarded) =
      and_then (http.to_str forwarded) (λ t. ok (each_tuple (split b';' t) b))

  module _ {Rest : Type 0} where
    unfoldable pub fix_request : Request Rest → Result ah.Error (Request Rest)
    unfolding each_tuple split
    fix_request request =
        and_then
          (behind_proxy request.headers
            (uris.builder (path_or_root (uris.path_and_query request.uri)))
            (http.get request.headers forwarded_header))
          (λ b. and_then (uris.build b) (λ uri. ok (record request { uri = uri })))

  -- From the instance of the guest to the response that its task sends.
  pub record Guest (Rest : Type 0) : Type 1 where
    pub State : Type 0
    pub forward : Request Rest → Exec State ah.Error (Response http)

  module _ {Rest : Type 0} (guest : Guest Rest) where
    abbrev forwarded : Result ah.Error (Request Rest) → Exec guest.State ah.Error (Response http)
    forwarded (ok request) w = guest.forward request w
    forwarded (err e) w = (err e, w)

    unfoldable pub handle : Request Rest → Exec guest.State ah.Error (Response http)
    unfolding fix_request
    handle request =
        forwarded (map_err (ah.context (bytes "preparing request")) (fix_request request))

  -- an error here is a panic of `expect`
  unfoldable pub internal_error : Result ah.Error (Response http)
  internal_error = and_then (http.from_u16 500) λ status.
      and_then (http.from_str (bytes "text/html; charset=UTF-8")) λ value. ok (record {
        status = status;
        headers = http.append http.empty (bytes "content-type") value;
        body = page;
      })

  abbrev or_internal_error : Result ah.Error (Response http) → Result ah.Error (Response http)
  or_internal_error (ok response) = ok response
  or_internal_error (err e) = internal_error

  module _ {Rest : Type 0} (guest : Guest Rest) where
    -- the service that `serve` runs on each request of a connection
    unfoldable pub respond : Request Rest → Exec guest.State ah.Error (Response http)
    unfolding handle internal_error
    respond request w = let (r, w') = handle guest request w in (or_internal_error r, w')
