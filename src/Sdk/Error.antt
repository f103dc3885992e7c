-- ===== src/Sdk/Error.antt =====
-- The errors of guests: crates/qwasr-sdk/src/error.rs, and `HttpError` of src/api/into_http.rs.
pub mod Laws
use yetti.Base.{ℕ, ◌≡◌, Option, none, some, List, [], ◌∷◌, ◌++◌, Text}
use yetti.Base.Lists.{bytes}
use yetti.Foreign.Anyhow.{Anyhow}

pub data Error : Type 0 where
  bad_request not_found server_error bad_gateway : (code : Text) (description : Text) → Error

-- An HTTP status code as its number.
unfoldable pub status : Error → ℕ
status (bad_request _ _) = 400
status (not_found _ _) = 404
status (server_error _ _) = 500
status (bad_gateway _ _) = 502

unfoldable pub code : Error → Text
code (bad_request c _) = c
code (not_found c _) = c
code (server_error c _) = c
code (bad_gateway c _) = c

unfoldable pub description : Error → Text
description (bad_request _ d) = d
description (not_found _ d) = d
description (server_error _ d) = d
description (bad_gateway _ d) = d

-- `#[error("code: {code}, description: {description}")]`
unfoldable pub display : Error → Text
unfolding code description
display e = bytes "code: " ++ (code e ++ (bytes ", description: " ++ description e))

-- `join(": ")`
unfoldable pub join_colon : List Text → Text
join_colon [] = []
join_colon (t ∷ []) = t
join_colon (t ∷ u ∷ ts) = t ++ (bytes ": " ++ join_colon (u ∷ ts))

-- More of `anyhow`: an error of the SDK inside it, which contexts leave in reach of `downcast_ref`,
-- and the chain of messages, the outermost first.
pub record Chains (ah : Anyhow) : Type 0 where
  pub from_error : Error → ah.Error
  pub chain : ah.Error → List Text
  pub root_cause : ah.Error → Text
  pub downcast_ref : ah.Error → Option Error
  pub chain-from_error : (e : Error) → chain (from_error e) ≡ display e ∷ []
  pub chain-context : (t : Text) (e : ah.Error) → chain (ah.context t e) ≡ t ∷ chain e
  pub downcast_ref-from_error : (e : Error) → downcast_ref (from_error e) ≡ some e
  pub downcast_ref-context :
      (t : Text) (e : ah.Error) → downcast_ref (ah.context t e) ≡ downcast_ref e
  pub downcast_ref-msg : (t : Text) → downcast_ref (ah.msg t) ≡ none

-- The error with another description.
abbrev pub described : Error → Text → Error
described (bad_request c _) d = bad_request c d
described (not_found c _) d = not_found c d
described (server_error c _) d = server_error c d
described (bad_gateway c _) d = bad_gateway c d

abbrev with_chain : Option Error → Text → Error
with_chain none chain = server_error (bytes "server_error") chain
with_chain (some inner) chain = described inner chain

-- `From<serde_json::Error>`, by the error's text
abbrev pub of_serde : Text → Error
of_serde t = bad_request (bytes "serde_json") t

pub record HttpError : Type 0 where
  pub status : ℕ
  pub error : Text

-- `From<Error> for HttpError`
unfoldable pub of_error : Error → HttpError
unfolding status display
of_error e = record { status = status e; error = display e }

abbrev status_or_500 : Option Error → ℕ
unfolding status
status_or_500 none = 500
status_or_500 (some e) = status e

module _ {ah : Anyhow} (c : Chains ah) where
  -- `From<anyhow::Error> for Error`
  unfoldable pub of_anyhow : ah.Error → Error
  unfolding join_colon
  of_anyhow err = with_chain (c.downcast_ref err) (join_colon (c.chain err))

  -- `From<anyhow::Error> for HttpError`
  unfoldable pub http_of_anyhow : ah.Error → HttpError
  unfolding status_or_500
  http_of_anyhow e = record {
    status = status_or_500 (c.downcast_ref e);
    error = ah.to_string e ++ (bytes ", caused by: " ++ c.root_cause e);
  }
