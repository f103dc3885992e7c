-- ===== src/Identity/Host.antt =====
-- The handlers of `wasi:identity/credentials` on the default provider:
-- crates/wasi-identity/src/host/credentials_impl.rs and the part of default_impl.rs that provides. The
-- readings of the clock are arguments, as in the manager of tokens.
pub mod Laws
use yetti.Base.{ℕ, Option, none, some, List, Text}
use yetti.Base.Lists.{bytes}
use yetti.Base.Exec.{Result, ok, err, Exec, pure, map_err, continue, ◌>>=◌}
use yetti.Foreign.Anyhow.{Anyhow}
use yetti.Foreign.ResourceTable.{ResourceTable}
use yetti.Identity.Tokens.{AccessToken, ConnectOptions, Oauth, World, token}

-- The variant `error` of `wasi:identity/types`.
pub data Error : Type 0 where
  no_such_identity : Error
  internal_failure : Text → Error

-- A clone of the token manager of `IdentityDefault`: all share one cache and one set of options.
pub data TokenManager : Type 0 where
  token_manager : TokenManager

module _ (ah : Anyhow) (oauth : Oauth ah) (options : ConnectOptions)
    (T : ResourceTable TokenManager) where
  -- `WasiIdentityCtxView`
  pub record View : Type 0 where
    pub ctx : World ah oauth
    pub table : T.Table

  abbrev pub Handler : Type 0 → Type 0
  Handler A = Exec View Error A

  -- `From<anyhow::Error>` and `From<ResourceTableError>`
  abbrev pub from_anyhow : ah.Error → Error
  from_anyhow e = internal_failure (ah.to_string e)

  abbrev pub from_table : T.TableError → Error
  from_table e = internal_failure (T.to_string e)

  abbrev call : {A : Type 0} → (ah.Error → ah.Error) → Exec (World ah oauth) ah.Error A → Handler A
  call f m v = let (r, c) = m v.ctx in (map_err (λ e. from_anyhow (f e)) r, record v { ctx = c })

  -- `IdentityDefault::get_identity`, which takes no account of the name
  unfoldable pub provide : Text → Exec (World ah oauth) ah.Error TokenManager
  provide name = pure token_manager

  unfoldable pub get_identity : Text → Handler ℕ
  unfolding provide
  get_identity name = do
    identity ← call (λ e. e) (provide name)
    λ v. let (r, t) = T.push identity v.table in (map_err from_table r, record v { table = t })

  found : Option TokenManager → Result Error TokenManager
  found none = err no_such_identity
  found (some identity) = ok identity

  -- the function `get_identity` outside the traits
  unfoldable pub find_identity : ℕ → Handler TokenManager
  unfolding found
  find_identity self v = (found (T.get v.table self), v)

  unfoldable pub get_token : ℕ → ℕ → ℕ → List Text → Handler AccessToken
  unfolding find_identity
  get_token self now later scopes = do
    identity ← find_identity self
    call (ah.context (bytes "issue getting access token")) (token ah oauth options now later scopes)

  unfoldable pub drop : ℕ → Exec View T.TableError (Unit {0})
  drop rep v = let (r, t) = T.delete rep v.table in (r, record v { table = t })
