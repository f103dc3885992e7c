-- ===== src/Sdk/Request/Laws.antt =====
-- The order of a builder's calls (crates/qwasr-sdk/src/api/request.rs).
use yetti.Base.{◌≡◌, refl, Bool, true, false, Text}
use yetti.Foreign.Anyhow.{Anyhow}
use yetti.Foreign.Http.{Http}
use yetti.Sdk.Request.{
  NoOwner, NoProvider, NoRequest, OwnerSet, ProviderSet, RequestSet, Headers, Handler,
  RequestHandler, new, owner, provider, request, headers, handle, Client, from_client,
}

module _ {ah : Anyhow} (http : Http ah) (H : Headers) {P World : Type 0}
    (R : Handler http H P World) where
  -- Whether each field is set, as a type of the builder.
  abbrev pub RequestSlot : Bool → Type 0
  RequestSlot false = NoRequest
  RequestSlot true = RequestSet R.Request

  abbrev pub OwnerSlot : Bool → Type 0
  OwnerSlot false = NoOwner
  OwnerSlot true = OwnerSet

  abbrev pub ProviderSlot : Bool → Type 0
  ProviderSlot false = NoProvider
  ProviderSlot true = ProviderSet P

  -- The calls that the types allow, in any order, the last one outermost.
  pub data Calls : Bool → Bool → Bool → Type 0 where
    start : Calls false false false
    with_owner : {r p : Bool} → Text → Calls r false p → Calls r true p
    with_provider : {r o : Bool} → P → Calls r o false → Calls r o true
    with_request : {o p : Bool} → R.Request → Calls false o p → Calls true o p
    with_headers : {r o p : Bool} → H.HeaderMap → Calls r o p → Calls r o p

  pub build :
      {r o p : Bool}
      → Calls r o p
      → RequestHandler http H (RequestSlot r) (OwnerSlot o) (ProviderSlot p)
  build start = new http H
  build (with_owner t calls) = owner http H (build calls) t
  build (with_provider p calls) = provider http H (build calls) p
  build (with_request r calls) = request http H (build calls) r
  build (with_headers hm calls) = headers http H (build calls) hm

  -- The one owner, provider and request that were set, and the last headers.
  unfoldable pub owner_of : {r p : Bool} → Calls r true p → Text
  owner_of (with_owner t calls) = t
  owner_of (with_provider p calls) = owner_of calls
  owner_of (with_request r calls) = owner_of calls
  owner_of (with_headers hm calls) = owner_of calls

  unfoldable pub provider_of : {r o : Bool} → Calls r o true → P
  provider_of (with_owner t calls) = provider_of calls
  provider_of (with_provider p calls) = p
  provider_of (with_request r calls) = provider_of calls
  provider_of (with_headers hm calls) = provider_of calls

  unfoldable pub request_of : {o p : Bool} → Calls true o p → R.Request
  request_of (with_owner t calls) = request_of calls
  request_of (with_provider p calls) = request_of calls
  request_of (with_request r calls) = r
  request_of (with_headers hm calls) = request_of calls

  unfoldable pub headers_of : {r o p : Bool} → Calls r o p → H.HeaderMap
  headers_of start = H.default
  headers_of (with_owner t calls) = headers_of calls
  headers_of (with_provider p calls) = headers_of calls
  headers_of (with_request r calls) = headers_of calls
  headers_of (with_headers hm calls) = hm

  owner-build : {r p : Bool} (calls : Calls r true p) → (build calls).owner.owner ≡ owner_of calls
  unfolding build owner_of owner provider request headers
  owner-build (with_owner t calls) = refl
  owner-build (with_provider p calls) = owner-build calls
  owner-build (with_request r calls) = owner-build calls
  owner-build (with_headers hm calls) = owner-build calls

  provider-build :
      {r o : Bool} (calls : Calls r o true) → (build calls).provider.provider ≡ provider_of calls
  unfolding build provider_of owner provider request headers
  provider-build (with_owner t calls) = provider-build calls
  provider-build (with_provider p calls) = refl
  provider-build (with_request r calls) = provider-build calls
  provider-build (with_headers hm calls) = provider-build calls

  request-build :
      {o p : Bool} (calls : Calls true o p) → (build calls).request.request ≡ request_of calls
  unfolding build request_of owner provider request headers
  request-build (with_owner t calls) = request-build calls
  request-build (with_provider p calls) = request-build calls
  request-build (with_request r calls) = refl
  request-build (with_headers hm calls) = request-build calls

  headers-build : {r o p : Bool} (calls : Calls r o p) → (build calls).headers ≡ headers_of calls
  unfolding build headers_of owner provider request headers
  headers-build start = refl
  headers-build (with_owner t calls) = headers-build calls
  headers-build (with_provider p calls) = headers-build calls
  headers-build (with_request r calls) = headers-build calls
  headers-build (with_headers hm calls) = refl

  -- Any calls of the builder that its types allow, and that set owner, provider and request, run the
  -- request's handler with these and the last headers that were set, the default ones if none were:
  -- the order of the calls does not matter.
  pub handle-build :
      (calls : Calls true true true) (w : World)
      → handle http H R (build calls) w
        ≡ R.handle
            (request_of calls)
            (record {
              owner = owner_of calls;
              provider = provider_of calls;
              headers = headers_of calls;
            })
            w
  unfolding handle
  handle-build calls w =
      rw (owner-build calls, provider-build calls, request-build calls, headers-build calls)

  -- A client's request is the builder with its owner and its provider.
  from_client-build :
      (client : Client http H R) (r : R.Request)
      → from_client http H R client r
        ≡ build (with_request r (with_provider client.provider (with_owner client.owner start)))
  unfolding from_client build owner provider request
  from_client-build client r = refl
