-- ===== src/Identity/Tokens.antt =====
-- The manager of access tokens: crates/wasi-identity/src/host/default_impl.rs. An instant is a number
-- of nanoseconds, and the instants of the process are taken to be in the range of `Instant`. Each
-- reading of the clock is an argument.
pub mod Laws
use yetti.Base.{
  ℕ, ◌+◌, ◌*◌, Bool, true, false, Option, none, some, List, [], Text, ltb, leb, if◌then◌else◌,
}
use yetti.Base.Exec.{Result, ok, err, Exec, pure, map_err, continue, ◌>>=◌}
use yetti.Foreign.Anyhow.{Anyhow}
use yetti.Foreign.Envelope.{second}

pub record AccessToken : Type 0 where
  pub token : Text
  -- in seconds
  pub expires_in : ℕ

abbrev pub default : AccessToken
default = record { token = []; expires_in = 0 }

-- `StandardTokenResponse`: the secret, and the life time if the server gives one
pub record TokenResponse : Type 0 where
  pub secret : Text
  pub expires_in : Option ℕ

abbrev pub unwrap_or : ℕ → Option ℕ → ℕ
unwrap_or n none = n
unwrap_or n (some m) = m

-- `From<TokenResponse> for AccessToken`
abbrev pub of_response : TokenResponse → AccessToken
of_response r = record { token = r.secret; expires_in = unwrap_or 3600 r.expires_in }

pub record CachedToken : Type 0 where
  pub access_token : AccessToken
  pub expires_at : ℕ

-- `CachedToken::new`, at the instant `now`
abbrev pub cached : AccessToken → ℕ → CachedToken
cached access_token now = record {
  access_token = access_token;
  expires_at = now + access_token.expires_in * second;
}

pub record ConnectOptions : Type 0 where
  pub client_id : Text
  pub client_secret : Text
  pub token_url : Text

-- The crates `oauth2` and `reqwest`: the request of a token for some scopes, from the building of the
-- client to the response.
pub record Oauth (ah : Anyhow) : Type 1 where
  pub Network : Type 0
  pub request_async : ConnectOptions → List Text → Exec Network ah.Error TokenResponse

module _ (ah : Anyhow) (oauth : Oauth ah) where
  -- The cache that the clones of a manager share, and the network.
  pub record World : Type 0 where
    pub cache : CachedToken
    pub net : oauth.Network

  abbrev pub Run : Type 0 → Type 0
  Run A = Exec World ah.Error A

  -- `TokenManager::new`, at the instant `now`
  abbrev pub new : ℕ → CachedToken
  new now = record { access_token = default; expires_at = now }

  -- Up to the end of the first lock: the token of the cache, if it is valid at `now`.
  unfoldable pub check : ℕ → Run (Option AccessToken)
  check now w = (ok (if ltb now w.cache.expires_at then some w.cache.access_token else none), w)

  abbrev received : Result ah.Error TokenResponse → Result ah.Error AccessToken
  received (ok r) = ok (of_response r)
  received (err e) = err e

  -- From there to the response.
  unfoldable pub fetch : ConnectOptions → List Text → Run AccessToken
  fetch options scopes w =
      let (r, net) = oauth.request_async options scopes w.net in
      (received r, record w { net = net })

  -- Behind the second lock, at the instant `later`: the token is stored unless the cache holds one
  -- that was valid at `now`, and the cache's token is returned.
  unfoldable pub refresh : ℕ → ℕ → AccessToken → Run AccessToken
  refresh now later access_token w =
      let cache = if leb w.cache.expires_at now then cached access_token later else w.cache in
      (ok cache.access_token, record w { cache = cache })

  missed : ConnectOptions → ℕ → ℕ → List Text → Option AccessToken → Run AccessToken
  missed options now later scopes (some access_token) = pure access_token
  missed options now later scopes none = do
    access_token ← fetch options scopes
    refresh now later access_token

  -- `TokenManager::token`
  unfoldable pub token : ConnectOptions → ℕ → ℕ → List Text → Run AccessToken
  unfolding missed
  token options now later scopes = do found ← check now; missed options now later scopes found
