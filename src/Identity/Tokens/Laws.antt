-- ===== src/Identity/Tokens/Laws.antt =====
-- When tokens are fetched and shared (crates/wasi-identity/src/host/default_impl.rs).
use yetti.Base.{ℕ, ◌+◌, ◌*◌, ◌≤◌, ◌<◌, ◌≡◌, true, false, Option, none, List, Text, leb, arith}
use yetti.Base.Exec.{ok, pure, ◌>>=◌}
use yetti.Foreign.Anyhow.{Anyhow}
use yetti.Foreign.Envelope.{second}
use yetti.Identity.Tokens.{
  AccessToken, TokenResponse, of_response, cached, ConnectOptions, Oauth, World, Run, check, fetch,
  refresh, missed, token,
}

le→leb : (m n : ℕ) → m ≤ n → leb m n ≡ true
le→leb m n h = ground arith

lt→leb : (m n : ℕ) → n < m → leb m n ≡ false
lt→leb m n h = ground arith

module _ (ah : Anyhow) (oauth : Oauth ah) (options : ConnectOptions) where
  check_empty :
      (now : ℕ) (w : World ah oauth)
      → w.cache.expires_at ≤ now
      → check ah oauth now w ≡ (ok none, w)
  unfolding check
  check_empty now w h = ground arith

  fetch_lem :
      (scopes : List Text) (w : World ah oauth) (response : TokenResponse) (net : oauth.Network)
      → oauth.request_async options scopes w.net ≡ (ok response, net)
      → fetch ah oauth options scopes w ≡ (ok (of_response response), record w { net = net })
  unfolding fetch
  fetch_lem scopes w response net h = rw h

  refresh_stored :
      (now later : ℕ) (t : AccessToken) (w : World ah oauth)
      → w.cache.expires_at ≤ now
      → refresh ah oauth now later t w ≡ (ok t, record w { cache = cached t later })
  unfolding refresh
  refresh_stored now later t w h = rw (le→leb _ _ h)

  refresh_kept :
      (now later : ℕ) (t : AccessToken) (w : World ah oauth)
      → now < w.cache.expires_at
      → refresh ah oauth now later t w ≡ (ok w.cache.access_token, w)
  unfolding refresh
  refresh_kept now later t w h = rw (lt→leb _ _ h)

  -- While the cached token is valid, it is what every call returns, whatever its scopes, and nothing
  -- is requested or changed.
  token_valid :
      (now later : ℕ) (scopes : List Text) (w : World ah oauth)
      → now < w.cache.expires_at
      → token ah oauth options now later scopes w ≡ (ok w.cache.access_token, w)
  unfolding token check missed
  token_valid now later scopes w h = ground arith

  module _ (now later : ℕ) (scopes : List Text) (w : World ah oauth) (response : TokenResponse)
      (net : oauth.Network) (expired : w.cache.expires_at ≤ now)
      (sent : oauth.request_async options scopes w.net ≡ (ok response, net)) where
    -- The world after the token was fetched and stored.
    abbrev pub refreshed : World ah oauth
    refreshed = record { cache = cached (of_response response) later; net = net }

    token_expired :
        token ah oauth options now later scopes w ≡ (ok (of_response response), refreshed)
    unfolding token missed
    token_expired = rw (check_empty now w expired) (
        rw (fetch_lem scopes w response net sent)
          (refresh_stored now later (of_response response) (record w { net = net }) expired))

    -- A call that finds no valid token fetches one for its scopes and returns it; until that token
    -- expires every further call returns it without a request, also a call for other scopes.
    pub token-token :
        (now1 later1 : ℕ) (other_scopes : List Text)
        → now1 < later + (of_response response).expires_in * second
        → (token ah oauth options now later scopes w ≡ (ok (of_response response), refreshed))
          × (token ah oauth options now1 later1 other_scopes refreshed
              ≡ (ok (of_response response), refreshed))
    token-token now1 later1 other_scopes h =
        (token_expired, token_valid now1 later1 other_scopes refreshed h)

  -- Two calls of which both look into the cache, both fetch a token, and store it one after the
  -- other: what they found in the cache, and what they return.
  abbrev pub fetched_twice :
      ℕ
      → ℕ
      → ℕ
      → ℕ
      → List Text
      → List Text
      → Run ah oauth (Option AccessToken × Option AccessToken × AccessToken × AccessToken)
  fetched_twice now now1 later later1 scopes scopes1 = do
    found ← check ah oauth now
    found1 ← check ah oauth now1
    fresh ← fetch ah oauth options scopes
    fresh1 ← fetch ah oauth options scopes1
    a ← refresh ah oauth now later fresh
    b ← refresh ah oauth now1 later1 fresh1
    pure (found, found1, a, b)

  -- Two calls that both find no valid token and both fetch one: if the token that is stored first
  -- expires after the other call began, both calls return it, although the other one fetched a token
  -- for its own scopes, and it stays in the cache.
  fetched_twice_lem :
      (now now1 later later1 : ℕ) (scopes scopes1 : List Text) (w : World ah oauth)
      (response response1 : TokenResponse) (net net1 : oauth.Network)
      → w.cache.expires_at ≤ now
      → w.cache.expires_at ≤ now1
      → oauth.request_async options scopes w.net ≡ (ok response, net)
      → oauth.request_async options scopes1 net ≡ (ok response1, net1)
      → now1 < later + (of_response response).expires_in * second
      → fetched_twice now now1 later later1 scopes scopes1 w ≡ (
        ok (none, none, of_response response, of_response response),
        record { cache = cached (of_response response) later; net = net1 },
      )
  fetched_twice_lem now now1 later later1 scopes scopes1 w response response1 net net1 expired
        expired1 sent sent1 valid =
      let w1 : World ah oauth = record w { net = net } in
      let w2 : World ah oauth = record w { net = net1 } in
      let w3 : World ah oauth = record {
        cache = cached (of_response response) later;
        net = net1;
      } in
      rw (check_empty now w expired) (
        rw (check_empty now1 w expired1) (
          rw (fetch_lem scopes w response net sent) (
            rw (fetch_lem scopes1 w1 response1 net1 sent1) (
              rw (refresh_stored now later (of_response response) w2 expired)
                (rw (refresh_kept now1 later1 (of_response response1) w3 valid))))))
