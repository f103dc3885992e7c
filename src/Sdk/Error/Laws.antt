-- ===== src/Sdk/Error/Laws.antt =====
-- What an error keeps on its way through `anyhow` (crates/qwasr-sdk/src/error.rs, src/api/into_http.rs).
use yetti.Base.{◌≡◌, refl, ap, ◌∙◌, List, [], ◌∷◌, ◌++◌, Text}
use yetti.Foreign.Anyhow.{Anyhow}
use yetti.Sdk.Error.{
  Error, bad_request, not_found, server_error, bad_gateway, status, code, description, described,
  display, join_colon, Chains, of_error, of_anyhow, http_of_anyhow,
}

status-described : (e : Error) (d : Text) → status (described e d) ≡ status e
unfolding status
status-described (bad_request _ _) d = refl
status-described (not_found _ _) d = refl
status-described (server_error _ _) d = refl
status-described (bad_gateway _ _) d = refl

code-described : (e : Error) (d : Text) → code (described e d) ≡ code e
unfolding code
code-described (bad_request _ _) d = refl
code-described (not_found _ _) d = refl
code-described (server_error _ _) d = refl
code-described (bad_gateway _ _) d = refl

description-described : (e : Error) (d : Text) → description (described e d) ≡ d
unfolding description
description-described (bad_request _ _) d = refl
description-described (not_found _ _) d = refl
description-described (server_error _ _) d = refl
description-described (bad_gateway _ _) d = refl

module _ {ah : Anyhow} (c : Chains ah) where
  -- An error inside contexts, the outermost first.
  abbrev pub in_contexts : List Text → ah.Error → ah.Error
  in_contexts [] e = e
  in_contexts (t ∷ ts) e = ah.context t (in_contexts ts e)

  downcast_ref-in_contexts :
      (ts : List Text) (e : ah.Error) → c.downcast_ref (in_contexts ts e) ≡ c.downcast_ref e
  downcast_ref-in_contexts [] e = refl
  downcast_ref-in_contexts (t ∷ ts) e =
      c.downcast_ref-context t (in_contexts ts e) ∙ downcast_ref-in_contexts ts e

  chain-in_contexts : (ts : List Text) (e : ah.Error) → c.chain (in_contexts ts e) ≡ ts ++ c.chain e
  chain-in_contexts [] e = refl
  chain-in_contexts (t ∷ ts) e =
      c.chain-context t (in_contexts ts e) ∙ ap (λ l. t ∷ l) (chain-in_contexts ts e)

  -- An error of the SDK that comes back out of `anyhow` inside any contexts has the status and the
  -- code that it had; its description is the contexts, the outermost first, and the printed error,
  -- joined with colons; and as an HTTP error it has the same status whether it is converted at once
  -- or by way of the SDK's error.
  pub of_anyhow-context :
      (ts : List Text) (e : Error)
      → let err = in_contexts ts (c.from_error e) in
        (status (of_anyhow c err) ≡ status e)
        × (code (of_anyhow c err) ≡ code e)
        × (description (of_anyhow c err) ≡ join_colon (ts ++ display e ∷ []))
        × ((http_of_anyhow c err).status ≡ status e)
        × ((of_error (of_anyhow c err)).status ≡ status e)
  unfolding of_anyhow http_of_anyhow of_error
  of_anyhow-context ts e =
      rw
        (
          downcast_ref-in_contexts ts (c.from_error e),
          c.downcast_ref-from_error e,
          chain-in_contexts ts (c.from_error e),
          c.chain-from_error e,
        )
        (
          status-described e _,
          code-described e _,
          description-described e _,
          refl,
          status-described e _,
        )

  -- Any other error becomes a server error, with status 500, however many contexts it is in.
  of_anyhow-foreign :
      (ts : List Text) (t : Text)
      → let err = in_contexts ts (ah.msg t) in
        (status (of_anyhow c err) ≡ 500) × ((http_of_anyhow c err).status ≡ 500)
  unfolding of_anyhow http_of_anyhow status
  of_anyhow-foreign ts t =
      rw (downcast_ref-in_contexts ts (ah.msg t), c.downcast_ref-msg t) (refl, refl)
