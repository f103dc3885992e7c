-- ===== src/Http/Server/Laws.antt =====
-- The URI that the guest of the HTTP server sees (crates/wasi-http/src/host/server.rs).
use yetti.Base.{◌≡◌, refl, Option, none, some, Text, nat_eq}
use yetti.Base.Lists.{bytes, All}
use yetti.Base.Exec.{ok, err}
use yetti.Base.Str.{split}
use yetti.Foreign.Anyhow.{Anyhow}
use yetti.Foreign.Http.{Http}
use yetti.Foreign.Uri.{Uris, and_then}
use yetti.Http.Server.Forwarded.{host_of, proto_of, last_some, Agrees, Readable, each_tuple_held}
use yetti.Http.Server.{
  Request, Guest, forwarded_header, host_header, each_tuple, page, path_or_root, fix_request,
  handle, internal_error, respond,
}

module _ (ah : Anyhow) (http : Http ah) (uris : Uris ah) where
  abbrev pub path_of : uris.Uri → uris.PathAndQuery
  path_of uri = path_or_root ah http uris (uris.path_and_query uri)

  module _ {Rest : Type 0} where
    abbrev start : Request ah http uris Rest → uris.Builder
    start request = uris.builder (path_of request.uri)

    abbrev local_builder : Request ah http uris Rest → Text → uris.Builder
    local_builder request t = uris.set_scheme (uris.set_authority (start request) t) (bytes "http")

  module _ {Rest : Type 0} (request : Request ah http uris Rest) where
    -- With no proxy in front: the URI for the guest gets the scheme `http`, the value of `Host` as its
    -- authority and the path and the query of the request, or `/`; nothing else of the request changes.
    fix_request-local :
        (host : http.HeaderValue) (t : Text) (a : uris.Authority) (s : uris.Scheme)
        → http.get request.headers forwarded_header ≡ none
        → http.get request.headers host_header ≡ some host
        → http.to_str host ≡ ok t
        → uris.parse_authority t ≡ ok a
        → uris.parse_scheme (bytes "http") ≡ ok s
        → (uri : uris.Uri) × (fix_request ah http uris request ≡ ok (record request { uri = uri }))
          × (uris.scheme uri ≡ some s)
          × (uris.authority uri ≡ some a)
          × (uris.path_and_query uri ≡ some (path_of request.uri))
    unfolding fix_request
    fix_request-local host t a s h h1 h2 h3 h4 =
        let (uri, built, scheme, authority, path) =
          uris.from_parts_full s a (path_of request.uri) in
        (
          uri,
          rw (
            h,
            h1,
            h2,
            uris.build_lem (local_builder request t),
            uris.held-set_scheme (uris.set_authority (start request) t) (bytes "http"),
            uris.held-set_authority (start request) t,
            uris.held-builder (path_of request.uri),
            h3,
            h4,
            built,
          ),
          scheme,
          authority,
          path,
        )

    module _ (forwarded : http.HeaderValue) (t : Text)
        (proxied : http.get request.headers forwarded_header ≡ some forwarded)
        (text : http.to_str forwarded ≡ ok t)
        (readable : All (Readable ah http uris) (split b';' t)) where
      -- What the loop leaves for the builder.
      fix_request_held :
          (s' : Option uris.Scheme) × (a' : Option uris.Authority) × (fix_request ah http uris
              request
            ≡ and_then
                (uris.from_parts s' a' (path_of request.uri))
                (λ uri. ok (record request { uri = uri })))
          × Agrees uris.parse_scheme (last_some proto_of (split b';' t)) none s'
          × Agrees uris.parse_authority (last_some host_of (split b';' t)) none a'
      unfolding fix_request
      fix_request_held =
          let (s', a', held, scheme, authority) =
            each_tuple_held ah http uris (split b';' t) (start request) none none
              (path_of request.uri) (uris.held-builder (path_of request.uri)) readable in
          (
            s',
            a',
            rw (
              proxied,
              text,
              uris.build_lem (each_tuple ah http uris (split b';' t) (start request)),
              held,
            ),
            scheme,
            authority,
          )

      -- Behind a proxy: if the header `Forwarded` has a host and a protocol, and each of these parses,
      -- the URI for the guest gets the last protocol as its scheme, the last host as its authority and
      -- the path and the query of the request, or `/`; nothing else of the request changes, and the
      -- header `Host` is not used.
      pub fix_request-forwarded :
          (host proto : Text)
          → last_some host_of (split b';' t) ≡ some host
          → last_some proto_of (split b';' t) ≡ some proto
          → (uri : uris.Uri) × (a : uris.Authority) × (s : uris.Scheme) × (fix_request ah http uris
                request
              ≡ ok (record request { uri = uri }))
            × (uris.parse_authority host ≡ ok a)
            × (uris.authority uri ≡ some a)
            × (uris.parse_scheme proto ≡ ok s)
            × (uris.scheme uri ≡ some s)
            × (uris.path_and_query uri ≡ some (path_of request.uri))
      fix_request-forwarded host proto h h1 =
          let (s', a', fixed, scheme, authority) = fix_request_held in
          let (s, parsed, e) =
            let found : Agrees uris.parse_scheme (some proto) none s' = rw h1 at scheme in found in
          let (a, parsed1, e1) =
            let found : Agrees uris.parse_authority (some host) none a' = rw h at authority in
            found in
          let (uri, built, scheme_uri, authority_uri, path_uri) =
            uris.from_parts_full s a (path_of request.uri) in
          (
            uri,
            a,
            s,
            rw (fixed, e, e1, built),
            parsed1,
            authority_uri,
            parsed,
            scheme_uri,
            path_uri,
          )

    -- The requests whose headers give the guest's URI no authority or no scheme.
    pub data IsUnaddressed : Type 0 where
      no_host :
          http.get request.headers forwarded_header ≡ none
          → http.get request.headers host_header ≡ none
          → IsUnaddressed
      no_proto :
          (forwarded : http.HeaderValue) (t host : Text)
          → http.get request.headers forwarded_header ≡ some forwarded
          → http.to_str forwarded ≡ ok t
          → All (Readable ah http uris) (split b';' t)
          → last_some host_of (split b';' t) ≡ some host
          → last_some proto_of (split b';' t) ≡ none
          → IsUnaddressed
      no_forwarded_host :
          (forwarded : http.HeaderValue) (t proto : Text)
          → http.get request.headers forwarded_header ≡ some forwarded
          → http.to_str forwarded ≡ ok t
          → All (Readable ah http uris) (split b';' t)
          → last_some host_of (split b';' t) ≡ none
          → last_some proto_of (split b';' t) ≡ some proto
          → IsUnaddressed

    fix_request_unaddressed :
        IsUnaddressed → (e : ah.Error) × (fix_request ah http uris request ≡ err e)
    unfolding fix_request
    fix_request_unaddressed (no_host h h1) = (ah.msg (bytes "missing host header"), rw (h, h1) refl)
    fix_request_unaddressed (no_proto forwarded t host h text readable h1 h2) =
        let (s', a', fixed, scheme, authority) = fix_request_held forwarded t h text readable in
        let e : s' ≡ none =
          let found : Agrees uris.parse_scheme none none s' = rw h2 at scheme in found in
        let (a, parsed1, e1) =
          let found : Agrees uris.parse_authority (some host) none a' = rw h1 at authority in
          found in
        let (why, refused) = uris.from_parts_no_scheme a (path_of request.uri) in
        (why, rw (fixed, e, e1, refused))
    fix_request_unaddressed (no_forwarded_host forwarded t proto h text readable h1 h2) =
        let (s', a', fixed, scheme, authority) = fix_request_held forwarded t h text readable in
        let (s, parsed, e) =
          let found : Agrees uris.parse_scheme (some proto) none s' = rw h2 at scheme in found in
        let e1 : a' ≡ none =
          let found : Agrees uris.parse_authority none none a' = rw h1 at authority in found in
        let (why, refused) = uris.from_parts_no_authority s (path_of request.uri) in
        (why, rw (fixed, e, e1, refused))

    -- A request whose headers give no authority or no scheme (no `Host` without a proxy, or only one of
    -- host and protocol in `Forwarded`) is answered with the error page and status 500, and the guest
    -- is not run.
    pub respond_unaddressed :
        (guest : Guest ah http uris Rest) (w : guest.State) (status : http.StatusCode)
        (html : http.HeaderValue)
        → IsUnaddressed
        → http.from_u16 500 ≡ ok status
        → http.from_str (bytes "text/html; charset=UTF-8") ≡ ok html
        → respond ah http uris guest request w ≡ (
          ok (record {
            status = status;
            headers = http.append http.empty (bytes "content-type") html;
            body = page;
          }),
          w,
        )
    unfolding respond handle internal_error
    respond_unaddressed guest w status html unaddressed h h1 =
        let (e, refused) = fix_request_unaddressed unaddressed in rw (refused, h, h1)
