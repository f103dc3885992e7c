-- ===== src/Sdk/Reply.antt =====
-- Replies, and the responses that they become: crates/qwasr-sdk/src/api/reply.rs and into_http.rs. A
-- status code is its number; the crate `axum` is a parameter.
pub mod Laws
use yetti.Base.{ℕ, ◌≡◌, Bool, ◌&&◌, Option, none, some, Text, Bytes, leb, ◌++◌, if◌then◌else◌}
use yetti.Base.Lists.{bytes}
use yetti.Base.HashMap.{is_some}
use yetti.Base.Exec.{Result, ok, err}
use yetti.Foreign.Anyhow.{Anyhow}
use yetti.Foreign.Http.{Http}

abbrev pub content_type : Text
content_type = bytes "content-type"

module _ {ah : Anyhow} (http : Http ah) where
  pub record Reply (B : Type 0) : Type 0 where
    pub status : ℕ
    pub headers : http.HeaderMap
    pub body : B

  module _ {B : Type 0} where
    -- `ok`, and `From<B>`
    unfoldable pub success : B → Reply B
    success body = record { status = 200; headers = http.empty; body = body }

    unfoldable pub created : B → Reply B
    created body = record { status = 201; headers = http.empty; body = body }

    unfoldable pub accepted : B → Reply B
    accepted body = record { status = 202; headers = http.empty; body = body }

    unfoldable pub is_success : Reply B → Bool
    is_success reply = leb 200 reply.status && leb reply.status 299

    unfoldable pub set_status : Reply B → ℕ → Reply B
    set_status reply status = record reply { status = status }

    unfoldable pub set_headers : Reply B → http.HeaderMap → Reply B
    set_headers reply headers = record reply { headers = headers }

  -- `axum`'s responses from a status and a text, and from a status, headers and bytes.
  pub record Axum : Type 1 where
    pub Response : Type 0
    pub status : Response → ℕ
    pub header : Response → Text → Option http.HeaderValue
    pub body : Response → Bytes
    pub of_text : ℕ → Text → Response
    pub of_parts : ℕ → http.HeaderMap → Bytes → Response
    pub status-of_text : (s : ℕ) (t : Text) → status (of_text s t) ≡ s
    pub body-of_text : (s : ℕ) (t : Text) → body (of_text s t) ≡ t
    pub status-of_parts : (s : ℕ) (h : http.HeaderMap) (b : Bytes) → status (of_parts s h b) ≡ s
    pub body-of_parts : (s : ℕ) (h : http.HeaderMap) (b : Bytes) → body (of_parts s h b) ≡ b
    -- the headers given are those of the response
    pub header-of_parts :
        (s : ℕ) (h : http.HeaderMap) (b : Bytes) (name : Text) (v : http.HeaderValue)
        → http.get h name ≡ some v
        → header (of_parts s h b) name ≡ some v

  -- `text_plain` is the header value `text/plain; charset=utf-8`
  module _ (axum : Axum) (text_plain : http.HeaderValue) where
    abbrev with_content_type : http.HeaderMap → http.HeaderMap
    with_content_type hm =
        if is_some (http.get hm content_type) then hm else http.insert hm content_type text_plain

    -- `IntoResponse for Reply<T>`, by the result of `into_body`
    unfoldable pub into_response : Reply (Result ah.Error Bytes) → axum.Response
    into_response reply = elim reply.body [
      | ok v ↦ axum.of_parts reply.status (with_content_type reply.headers) v
      | err e ↦ axum.of_text 500 (bytes "body encoding error: " ++ ah.to_string e)
    ]
