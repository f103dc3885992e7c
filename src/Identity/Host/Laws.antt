-- ===== src/Identity/Host/Laws.antt =====
-- What the identities that a guest gets share (crates/wasi-identity/src/host/credentials_impl.rs).
use yetti.Base.{ℕ, ◌+◌, ◌*◌, ◌≤◌, ◌<◌, ◌≡◌, ap, ◌∙◌, sym, ◌≢◌, some, List, Text, arith}
use yetti.Base.Exec.{ok, err, map_err-eq-ok}
use yetti.Foreign.Anyhow.{Anyhow}
use yetti.Foreign.Envelope.{second}
use yetti.Foreign.ResourceTable.{ResourceTable}
use yetti.Identity.Tokens.{TokenResponse, of_response, ConnectOptions, Oauth}
use yetti.Identity.Tokens.Laws.{refreshed, token-token}
use yetti.Identity.Host.{
  TokenManager, token_manager, no_such_identity, View, from_table, provide, get_identity,
  find_identity, get_token, drop,
}

module _ (ah : Anyhow) (oauth : Oauth ah) (options : ConnectOptions)
    (T : ResourceTable TokenManager) where
  get_identity-pushes :
      (v v' : View ah oauth options T) (name : Text) (r : ℕ)
      → get_identity ah oauth options T name v ≡ (ok r, v')
      → (T.push token_manager v.table ≡ (ok r, v'.table)) × (v'.ctx ≡ v.ctx)
  unfolding get_identity provide
  get_identity-pushes v v' name r h = ground (
    arith,
    h,
    map_err-eq-ok (from_table ah oauth options T) (T.push token_manager v.table).0 {a = r}
        (ap (λ p. p.0) h),
  )

  find_identity-held :
      (v : View ah oauth options T) (r : ℕ)
      → T.get v.table r ≡ some token_manager
      → find_identity ah oauth options T r v ≡ (ok token_manager, v)
  unfolding find_identity
  find_identity-held v r h = ground (arith, h)

  -- Two identities, of any names.
  two_held :
      (v v1 v2 : View ah oauth options T) (a b : Text) (r q : ℕ)
      → get_identity ah oauth options T a v ≡ (ok r, v1)
      → get_identity ah oauth options T b v1 ≡ (ok q, v2)
      → (T.get v2.table r ≡ some token_manager)
        × (T.get v2.table q ≡ some token_manager)
        × (v2.ctx ≡ v.ctx)
  two_held v v1 v2 a b r q h h1 =
      let (p, same) = get_identity-pushes v v1 a r h in
      let (p1, same1) = get_identity-pushes v1 v2 b q h1 in
      let here = T.get-push_self token_manager v.table v1.table r p in
      let apart : r ≢ q =
        λ e. ground (arith, here, e, T.push_fresh token_manager v1.table v2.table q p1) in
      (
        T.get-push_ne token_manager v1.table v2.table q r p1 (λ e. apart (sym e)) ∙ here,
        T.get-push_self token_manager v1.table v2.table q p1,
        same1 ∙ same,
      )

  -- Two identities that a guest got, under any two names, share one token: once a token was fetched
  -- for the first, at a time when the cache held no valid one, the second returns the same token until
  -- that expires, for any scopes, and nothing is requested or stored again.
  pub get_token-get_token :
      (v v1 v2 : View ah oauth options T) (a b : Text) (r q : ℕ) (now later : ℕ)
      (scopes : List Text) (response : TokenResponse) (net : oauth.Network) (now1 later1 : ℕ)
      (other_scopes : List Text) (expired : v.ctx.cache.expires_at ≤ now)
      (sent : oauth.request_async options scopes v.ctx.net ≡ (ok response, net))
      → get_identity ah oauth options T a v ≡ (ok r, v1)
      → get_identity ah oauth options T b v1 ≡ (ok q, v2)
      → now1 < later + (of_response response).expires_in * second
      → let v3 : View ah oauth options T = record v2 {
        ctx = refreshed ah oauth options now later scopes v.ctx response net expired sent;
      } in
        (get_token ah oauth options T r now later scopes v2 ≡ (ok (of_response response), v3))
        × (get_token ah oauth options T q now1 later1 other_scopes v3
            ≡ (ok (of_response response), v3))
  unfolding get_token
  get_token-get_token v v1 v2 a b r q now later scopes response net now1 later1 other_scopes expired
        sent h h1 valid =
      let (held, held1, same) = two_held v v1 v2 a b r q h h1 in
      let v3 : View ah oauth options T = record v2 {
        ctx = refreshed ah oauth options now later scopes v.ctx response net expired sent;
      } in
      let (fetched, kept) =
        token-token ah oauth options now later scopes v.ctx response net expired sent now1 later1
          other_scopes valid in
      (
        grind (arith, find_identity-held v2 r held, same, fetched),
        grind (arith, find_identity-held v3 q held1, kept),
      )

  -- After an identity was dropped, its handle is none: asking it for a token fails and changes
  -- nothing, and no other handle is affected.
  get_token-drop :
      (v v1 : View ah oauth options T) (r : ℕ) (now later : ℕ) (scopes : List Text)
      → drop ah oauth options T r v ≡ (ok tt, v1)
      → (get_token ah oauth options T r now later scopes v1 ≡ (err no_such_identity, v1))
        × ((q : ℕ)
            → r ≢ q
            → find_identity ah oauth options T q v1
              ≡ ((find_identity ah oauth options T q v).0, v1))
  unfolding get_token find_identity drop
  get_token-drop v v1 r now later scopes h = (
    grind (arith, h, T.get-delete_self v.table v1.table r),
    λ q n. grind (arith, h, T.get-delete_ne v.table v1.table r q),
  )
