-- ===== src/Sdk/Reply/Laws.antt =====
-- What a response keeps of its reply (crates/qwasr-sdk/src/api/into_http.rs).
use yetti.Base.{◌≡◌, inl, inr, ◌++◌, Option, none, some, arith, Text, Bytes, text_eq, Option-cases}
use yetti.Base.Lists.{bytes}
use yetti.Base.Exec.{Result, ok, err}
use yetti.Foreign.Anyhow.{Anyhow}
use yetti.Foreign.Http.{Http}
use yetti.Sdk.Reply.{Reply, Axum, content_type, with_content_type, into_response}

module _ {ah : Anyhow} (http : Http ah) (axum : Axum http) (text_plain : http.HeaderValue) where
  abbrev pub type_or_plain : Option http.HeaderValue → http.HeaderValue
  type_or_plain none = text_plain
  type_or_plain (some v) = v

  get-with_content_type :
      (hm : http.HeaderMap)
      → http.get (with_content_type http axum text_plain hm) content_type
        ≡ some (type_or_plain (http.get hm content_type))
  get-with_content_type hm = elim (Option-cases (http.get hm content_type)) [
    | inl h ↦ ground (arith, h, http.get-insert hm content_type content_type text_plain)
    | inr (v, h) ↦ ground (arith, h)
  ]

  get-with_content_type_held :
      (hm : http.HeaderMap) (name : Text) (v : http.HeaderValue)
      → http.get hm name ≡ some v
      → http.get (with_content_type http axum text_plain hm) name ≡ some v
  get-with_content_type_held hm name v h = elim (Option-cases (http.get hm content_type)) [
    | inl none_held ↦ ground (arith, h, none_held, http.get-insert hm content_type name text_plain)
    | inr (u, held) ↦ ground (arith, h, held)
  ]

  -- A reply whose body is encoded becomes a response with its status, its bytes and each of its
  -- headers; the type of the contents is the one given, or else plain text.
  into_response-ok :
      (reply : Reply http (Result ah.Error Bytes)) (v : Bytes) (name : Text)
      (value : http.HeaderValue)
      → reply.body ≡ ok v
      → http.get reply.headers name ≡ some value
      → let response = into_response http axum text_plain reply in
        (axum.status response ≡ reply.status)
        × (axum.body response ≡ v)
        × (axum.header response name ≡ some value)
        × (axum.header response content_type
            ≡ some (type_or_plain (http.get reply.headers content_type)))
  unfolding into_response
  into_response-ok reply v name value h held = rw h (
    axum.status-of_parts _ _ _,
    axum.body-of_parts _ _ _,
    axum.header-of_parts _ _ _ name value
        (get-with_content_type_held reply.headers name value held),
    axum.header-of_parts _ _ _ content_type _ (get-with_content_type reply.headers),
  )

  -- A reply whose body cannot be encoded becomes a response with status 500 and the reason, whatever
  -- its own status.
  into_response-err :
      (reply : Reply http (Result ah.Error Bytes)) (e : ah.Error)
      → reply.body ≡ err e
      → let response = into_response http axum text_plain reply in
        (axum.status response ≡ 500)
        × (axum.body response ≡ bytes "body encoding error: " ++ ah.to_string e)
  unfolding into_response
  into_response-err reply e h = rw h (axum.status-of_text _ _, axum.body-of_text _ _)
