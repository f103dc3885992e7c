-- ===== src/Http/Outgoing.antt =====
-- `handle` of crates/wasi-http/src/guest/outgoing.rs: a request through the cache and the proxy.
pub mod Laws
use yetti.Base.{ℕ, Bool, true, false, Option, none, some, List, [], ◌∷◌, ◌++◌, Text, Bytes}
use yetti.Base.Lists.{bytes}
use yetti.Base.Exec.{Result, ok, err, Exec, pure, raise, map_err, continue, ◌>>=◌, ◌>>◌}
use yetti.Foreign.Anyhow.{Anyhow}
use yetti.Foreign.Http.{Http, Response, Request}
use yetti.KeyValue.Backend.{Backend}
use yetti.KeyValue.Cache.{Env, Failure, error, Guest}
use yetti.Http.Cache.{Cache, Rkyv, maybe_from, get, put}

abbrev pub etag_header : Text
etag_header = bytes "etag"

-- What the proxy returns: the head, and the reads of the body's stream if it was not started. A
-- read is `true` while its result is `StreamResult::Complete`.
pub record Incoming {ah : Anyhow} (http : Http ah) : Type 0 where
  pub status : http.StatusCode
  pub headers : http.HeaderMap
  pub unstarted : Option (List (Bool × Bytes))

-- The conversions of `wasip3::http_compat` and `handler::handle`, with the network as their state.
pub record Proxy (env : Env) (http : Http env.ah) : Type 1 where
  pub Network : Type 0
  pub send : Request http → Exec Network env.ah.Error (Incoming http)

-- The loop of reads: each appends what it read, and one that is not complete ends the loop.
unfoldable pub read_body : Bytes → List (Bool × Bytes) → Bytes
read_body body_buf [] = body_buf
read_body body_buf ((true, read) ∷ rest) = read_body (body_buf ++ read) rest
read_body body_buf ((false, read) ∷ rest) = body_buf ++ read

abbrev pub collect : Option (List (Bool × Bytes)) → Bytes
collect none = []
collect (some reads) = read_body [] reads

module _ (env : Env) (http : Http env.ah) (rkyv : Rkyv env.ah.Error) (proxy : Proxy env http) where
  pub record World : Type 0 where
    pub kv : env.store.State
    pub net : proxy.Network

  abbrev pub Client : Type 0 → Type 0
  Client A = Exec World (Failure env.ah.Error) A

  abbrev pub in_store : {A : Type 0} → Guest env A → Client A
  in_store m w = let (r, kv) = m w.kv in (r, record w { kv = kv })

  abbrev pub on_net : {A : Type 0} → Exec proxy.Network env.ah.Error A → Client A
  on_net m w = let (r, net) = m w.net in (map_err error r, record w { net = net })

  abbrev pub lift_result : {A : Type 0} → Result env.ah.Error A → Client A
  lift_result r w = (map_err error r, w)

  unfoldable pub lookup : Option Cache → ℕ → Client (Option (Response http))
  lookup none now = pure none
  lookup (some cache) now = in_store (get env http rkyv cache now)

  -- From the call of the proxy to the response with its whole body.
  unfoldable pub forward : Request http → Client (Response http)
  forward request = do
    incoming ← on_net (proxy.send request)
    pure (record {
      status = incoming.status;
      headers = incoming.headers;
      body = collect incoming.unstarted;
    })

  unfoldable pub store_response : Option Cache → Response http → ℕ → ℕ → Client (Response http)
  store_response none response created checked = pure response
  store_response (some cache) response created checked = do
    etag ← lift_result (http.from_str cache.control.etag)
    let tagged : Response http = record response {
      headers = http.insert response.headers etag_header etag;
    }
    in_store (put env http rkyv cache tagged created checked)
    pure tagged

  unless_hit : Request http → Option Cache → Option (Response http) → ℕ → ℕ → Client (Response http)
  unless_hit request maybe_cache (some hit) created checked = pure hit
  unless_hit request maybe_cache none created checked = do
    response ← forward request
    store_response maybe_cache response created checked

  -- `handle`, with the readings of the clock: in the lookup, for the new envelope, and in the lookup
  -- that precedes the store.
  unfoldable pub handle : Request http → ℕ → ℕ → ℕ → Client (Response http)
  unfolding unless_hit
  handle request now created checked = do
    maybe_cache ← lift_result (maybe_from env http rkyv request)
    hit ← lookup maybe_cache now
    unless_hit request maybe_cache hit created checked
