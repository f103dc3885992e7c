-- ===== src/Http/Outgoing/Laws.antt =====
-- What a request through the cache does (crates/wasi-http/src/guest/outgoing.rs).
use yetti.Base.{ℕ, ◌+◌, ◌*◌, ◌/◌, ◌≤◌, ◌≡◌, refl, false, ◌||◌, none, some, Bytes, nat_eq, ◌==◌, leb}
use yetti.Base.Lists.{is_empty}
use yetti.Base.Exec.{Result, ok, continue-pure}
use yetti.Foreign.Http.{Http, Response, Request}
use yetti.Foreign.Envelope.{second}
use yetti.KeyValue.Backend.{IsLawful}
use yetti.KeyValue.Cache.{Env, Failure}
use yetti.Http.Control.{cache_control}
use yetti.Http.Cache.{Cache, Rkyv, maybe_from, serialize, get, put}
use yetti.Http.Cache.Laws.{IsReadable, IsVisible, expiry, get-put}
use yetti.Http.Outgoing.{
  Incoming, Proxy, collect, World, lookup, forward, store_response, unless_hit, handle, etag_header,
}

module _ (env : Env) (http : Http env.ah) (rkyv : Rkyv env.ah.Error) (proxy : Proxy env http) where
  open env use {ah}

  -- What `handle` returns after a miss: the response of the proxy with the tag of the cache.
  abbrev pub tagged : Incoming http → http.HeaderValue → Response http
  tagged incoming etag = record {
    status = incoming.status;
    headers = http.insert incoming.headers etag_header etag;
    body = collect incoming.unstarted;
  }

  -- A request with no `Cache-Control` header is sent, and its response returned, with no use of the
  -- cache.
  handle-uncached :
      (request : Request http) (now created checked : ℕ) (w : World env http rkyv proxy)
      → http.get request.headers cache_control ≡ none
      → handle env http rkyv proxy request now created checked w
        ≡ forward env http rkyv proxy request w
  unfolding handle maybe_from lookup unless_hit store_response
  handle-uncached request now created checked w h =
      rw (h, maybe_from) (continue-pure (forward env http rkyv proxy request w).0 _)

  module _ (request : Request http) (c : Cache) (now created checked : ℕ)
      (w : World env http rkyv proxy) (asked : maybe_from env http rkyv request ≡ ok (some c)) where
    -- If the cache has a response, it is returned, and no request is sent.
    handle-hit :
        (hit : Response http)
        → (get env http rkyv c now w.kv).0 ≡ ok (some hit)
        → handle env http rkyv proxy request now created checked w
          ≡ (ok hit, record w { kv = (get env http rkyv c now w.kv).1 })
    unfolding handle lookup unless_hit
    handle-hit hit h = rw (asked, h)

    module _ (incoming : Incoming http) (net : proxy.Network) (etag : http.HeaderValue)
        (missed : (get env http rkyv c now w.kv).0 ≡ ok none)
        (sent : proxy.send request w.net ≡ (ok incoming, net))
        (named : http.from_str c.control.etag ≡ ok etag) where
      abbrev stored : Result (Failure ah.Error) (Unit {0}) × env.store.State
      stored =
          put env http rkyv c (tagged incoming etag) created checked
            (get env http rkyv c now w.kv).1

      handle-miss :
          stored.0 ≡ ok tt
          → handle env http rkyv proxy request now created checked w
            ≡ (ok (tagged incoming etag), record { kv = stored.1; net = net })
      unfolding handle lookup unless_hit forward store_response
      handle-miss h = rw (asked, missed, sent, unless_hit, named, h)

  module _ (L : IsLawful env.store) where
    -- The second of two requests for one tag of one bucket: if the first found nothing and its
    -- response was storable, each request for the tag before the expiry returns the same response
    -- and sends nothing. Storable is a response whose header values are visible ASCII and that the
    -- encoders take, under a cache that stores.
    pub handle-again :
        (first second_request : Request http) (c d : Cache)
        (now created checked again again1 again2 : ℕ) (w : World env http rkyv proxy)
        (incoming : Incoming http) (net : proxy.Network) (etag : http.HeaderValue)
        (x sealed : Bytes)
        → maybe_from env http rkyv first ≡ ok (some c)
        → (get env http rkyv c now w.kv).0 ≡ ok none
        → proxy.send first w.net ≡ (ok incoming, net)
        → http.from_str c.control.etag ≡ ok etag
        → (c.control.no_store || (is_empty c.control.etag || c.control.max_age == 0)) ≡ false
        → IsVisible env http rkyv (http.iter (http.insert incoming.headers etag_header etag))
        → serialize env http rkyv (tagged incoming etag) ≡ ok x
        → created + c.control.max_age * second ≤ env.chrono.max_time
        → env.json.to_vec x ((created + c.control.max_age * second) / second) ≡ ok sealed
        → maybe_from env http rkyv second_request ≡ ok (some d)
        → IsReadable env http rkyv L d
        → d.bucket ≡ c.bucket
        → d.control.etag ≡ c.control.etag
        → checked ≤ again
        → leb (expiry c created) again ≡ false
        → let after = (handle env http rkyv proxy first now created checked w).1 in
          let repeated = handle env http rkyv proxy second_request again again1 again2 after in
          ((handle env http rkyv proxy first now created checked w).0 ≡ ok (tagged incoming etag))
          × (repeated.0 ≡ ok (tagged incoming etag))
          × (repeated.1.net ≡ after.net)
    handle-again first second_request c d now created checked again again1 again2 w incoming net
          etag x sealed asked missed sent named storable visible serialized in_range encoded asked1
          readable same_bucket same_tag later alive =
        let (put_ok, read) =
          get-put env http rkyv L c (tagged incoming etag) x sealed created checked storable visible
            serialized in_range encoded (get env http rkyv c now w.kv).1 d again readable
            same_bucket same_tag later in
        let stored =
          handle-miss first c now created checked w asked incoming net etag missed sent named
            put_ok in
        let hit = rw alive at read in
        let after : World env http rkyv proxy = record {
          kv =
              (put env http rkyv c (tagged incoming etag) created checked
                (get env http rkyv c now w.kv).1).1;
          net = net;
        } in
        rw stored (
          refl,
          rw (
              handle-hit second_request d again again1 again2 after asked1 (tagged incoming etag)
                hit),
          rw (
              handle-hit second_request d again again1 again2 after asked1 (tagged incoming etag)
                hit),
        )
