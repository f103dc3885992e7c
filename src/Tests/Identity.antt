-- ===== src/Tests/Identity.antt =====
-- The theorems on access tokens, at a server that numbers its tokens.
use yetti.Base.{ℕ, suc, ◌≡◌, refl, none, [], ◌∷◌, arith}
use yetti.Base.Lists.{bytes}
use yetti.Base.Exec.{ok}
use yetti.Foreign.Anyhow.{chained}
use yetti.Foreign.ResourceTable.{ResourceTable, growing}
use yetti.Identity.Host.{TokenManager, View, get_identity, get_token}
use yetti.Identity.Host.Laws.{get_token-get_token}
use yetti.Identity.Tokens.{TokenResponse, of_response, ConnectOptions, Oauth, World, new}
use yetti.Identity.Tokens.Laws.{refreshed}

abbrev oauth : Oauth chained
oauth = record {
  Network = ℕ;
  request_async = λ options scopes n. (ok (record { secret = n ∷ []; expires_in = none }), suc n);
}

abbrev options : ConnectOptions
options = record { client_id = []; client_secret = []; token_url = [] }

abbrev w : World chained oauth
w = record { cache = new chained oauth 5; net = 0 }

abbrev response : ℕ → TokenResponse
response n = record { secret = n ∷ []; expires_in = none }

abbrev after : World chained oauth
after = refreshed chained oauth options 5 6 [] w (response 0) 1 (omega arith) refl

abbrev T : ResourceTable TokenManager
T = growing TokenManager

abbrev v0 : View chained oauth options T
v0 = record { ctx = w; table = [] }

abbrev v1 : View chained oauth options T
v1 = (get_identity chained oauth options T (bytes "reader") v0).1

abbrev v2 : View chained oauth options T
v2 = (get_identity chained oauth options T (bytes "admin") v1).1

got : get_identity chained oauth options T (bytes "reader") v0 ≡ (ok 0, v1)
unfolding get_identity yetti.Foreign.ResourceTable.push_entry yetti.Foreign.ResourceTable.fresh
got = refl

got1 : get_identity chained oauth options T (bytes "admin") v1 ≡ (ok 1, v2)
unfolding get_identity yetti.Foreign.ResourceTable.push_entry yetti.Foreign.ResourceTable.fresh
got1 = refl

get_token-get_token_example :
    (get_token chained oauth options T 0 5 6 [] v2
      ≡ (ok (of_response (response 0)), record v2 { ctx = after }))
    × (get_token chained oauth options T 1 7 8 (bytes "admin" ∷ []) (record v2 { ctx = after })
        ≡ (ok (of_response (response 0)), record v2 { ctx = after }))
get_token-get_token_example =
    get_token-get_token chained oauth options T v0 v1 v2 (bytes "reader") (bytes "admin") 0 1 5 6 []
      (response 0) 1 7 8 (bytes "admin" ∷ []) (omega arith) refl got got1 (omega arith)
