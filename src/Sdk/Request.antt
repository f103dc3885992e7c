-- ===== src/Sdk/Request.antt =====
-- The builder of requests: crates/qwasr-sdk/src/api/request.rs and src/api.rs. The types of the
-- builder's fields are its state, as in the source: `handle` exists for the last state only.
pub mod Laws
use yetti.Base.{Text}
use yetti.Base.Exec.{Result, ok, err, Exec}
use yetti.Foreign.Anyhow.{Anyhow}
use yetti.Foreign.Http.{Http}
use yetti.Sdk.Reply.{Reply}

pub data NoOwner : Type 0 where
  no_owner : NoOwner

pub data NoProvider : Type 0 where
  no_provider : NoProvider

pub data NoRequest : Type 0 where
  no_request : NoRequest

pub record OwnerSet : Type 0 where
  pub owner : Text

pub record ProviderSet (P : Type 0) : Type 0 where
  pub provider : P

pub record RequestSet (R : Type 0) : Type 0 where
  pub request : R

-- `HeaderMap<String>`, with its default
pub record Headers : Type 1 where
  pub HeaderMap : Type 0
  pub default : HeaderMap

module _ {ah : Anyhow} (http : Http ah) (H : Headers) where
  pub record Context (P : Type 0) : Type 0 where
    pub owner : Text
    pub provider : P
    pub headers : H.HeaderMap

  -- The trait `Handler`; `World` is what the handler acts on.
  pub record Handler (P World : Type 0) : Type 1 where
    pub Request : Type 0
    pub Input : Type 0
    pub Output : Type 0
    pub Error : Type 0
    pub from_input : Input → Result Error Request
    pub handle : Request → Context P → Exec World Error (Reply http Output)

  pub record RequestHandler (R O P : Type 0) : Type 0 where
    pub request : R
    pub headers : H.HeaderMap
    pub owner : O
    pub provider : P

  abbrev pub new : RequestHandler NoRequest NoOwner NoProvider
  new = record {
    request = no_request;
    headers = H.default;
    owner = no_owner;
    provider = no_provider;
  }

  unfoldable pub owner :
      {R P : Type 0} → RequestHandler R NoOwner P → Text → RequestHandler R OwnerSet P
  owner h o = record {
    request = h.request;
    headers = h.headers;
    owner = record { owner = o };
    provider = h.provider;
  }

  unfoldable pub provider :
      {R O P : Type 0} → RequestHandler R O NoProvider → P → RequestHandler R O (ProviderSet P)
  provider h p = record {
    request = h.request;
    headers = h.headers;
    owner = h.owner;
    provider = record { provider = p };
  }

  unfoldable pub request :
      {R O P : Type 0} → RequestHandler NoRequest O P → R → RequestHandler (RequestSet R) O P
  request h r = record {
    request = record { request = r };
    headers = h.headers;
    owner = h.owner;
    provider = h.provider;
  }

  unfoldable pub headers :
      {R O P : Type 0} → RequestHandler R O P → H.HeaderMap → RequestHandler R O P
  headers h hm = record h { headers = hm }

  module _ {P World : Type 0} (R : Handler P World) where
    unfoldable pub handle :
        RequestHandler (RequestSet R.Request) OwnerSet (ProviderSet P)
        → Exec World R.Error (Reply http R.Output)
    handle h =
        R.handle h.request.request
          (record { owner = h.owner.owner; provider = h.provider.provider; headers = h.headers })

    -- `Handler::handler`
    unfoldable pub handler :
        R.Input → Result R.Error (RequestHandler (RequestSet R.Request) NoOwner NoProvider)
    unfolding request
    handler input = elim (R.from_input input) [ err e ↦ err e | ok r ↦ ok (request new r) ]

    -- `Client`, and its `request`
    pub record Client : Type 0 where
      pub owner : Text
      pub provider : P

    unfoldable pub from_client :
        Client → R.Request → RequestHandler (RequestSet R.Request) OwnerSet (ProviderSet P)
    from_client client r = record {
      request = record { request = r };
      headers = H.default;
      owner = record { owner = client.owner };
      provider = record { provider = client.provider };
    }
