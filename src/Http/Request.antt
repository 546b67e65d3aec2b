-- ===== src/Http/Request.antt =====
-- src/http.rs: `request` with its retry loop, and `body_if_ok`.
use mathlib.Core.Option
use k8s_sidecar_rs.Base.{
  Text, Bytes, ascii, ℕ, zero, suc, ◌+◌, ◌%◌, Bool, true, not, ◌&&◌, Option, none, some, List, [],
  ◌∷◌, ◌++◌, ◌==◌, nat_eq, list_eq, contains, Result, ok, err, unwrap_or, ltb, if◌then◌else◌,
}
use k8s_sidecar_rs.Base.Number.{decimal, u32_limit}
use k8s_sidecar_rs.Base.Utf8.{from_utf8_lossy}
use k8s_sidecar_rs.Host.World.{Host, HttpRequest, HttpResponse}
use k8s_sidecar_rs.Host.Io.{Io, pure, ◌>>=◌, ◌>>◌, debug, info, warning, error}
use k8s_sidecar_rs.Host.Backoff.{pause}
use k8s_sidecar_rs.Http.Auth.{HttpCfg, is_text, basic_auth_header}

pub no_url_msg : Text
no_url_msg = ascii "No url provided. Doing nothing."

pub invalid_method_msg : Text → Text
invalid_method_msg method =
    ascii "Invalid REQ_METHOD: '" ++ method ++ ascii "', please use 'GET' or 'POST'. Doing nothing."

pub builder_msg : Text → Text → Text
builder_msg url e = ascii "Unexpected error during request to " ++ url ++ ascii ": " ++ e

pub dummy_msg : Text → Text
dummy_msg url = ascii "Returning dummy response for URL " ++ url

pub too_many_msg : ℕ → Text
too_many_msg status =
    ascii "too many "
    ++ decimal status
    ++ ascii " error responses (Caused by ResponseError('too many "
    ++ decimal status
    ++ ascii " error responses'))"

pub max_retries_msg : Text → Text → Text
max_retries_msg url e = ascii "Max retries exceeded for URL " ++ url ++ ascii ": " ++ e

pub response_msg : Text → ℕ → Text → Bytes → Text
response_msg url status reason body =
    ascii " sent to "
    ++ url
    ++ ascii ". Response: "
    ++ decimal status
    ++ ascii " "
    ++ reason
    ++ ascii " "
    ++ from_utf8_lossy body

abbrev pub Response : Type 0
Response = Option (ℕ × Bytes)

-- Statuses that are tried again.
unfoldable pub enforce_status : Bool → List ℕ
enforce_status enable_5xx = if enable_5xx then [] else 500 ∷ 502 ∷ 503 ∷ 504 ∷ []

-- `bytes().await.unwrap_or_default()`
abbrev pub body_of : Result Bytes Text → Bytes
body_of (ok b) = b
body_of (err e) = []

module _ (H : Host) where
  -- One request, in the world.
  abbrev pub send : H.Client → HttpRequest H.Json → Io H (Result HttpResponse Text)
  send client req w = let (r, n) = H.send client req w.net in (r, record w { net = n })

  unfoldable pub payload_repr : Bool → Option H.Json → Text
  payload_repr post payload =
      if post then unwrap_or (Option.map H.json_text payload) (ascii "None") else ascii "Request"

  -- A response that ends the loop.
  unfoldable pub respond : HttpRequest H.Json → Option H.Json → HttpResponse → Io H Response
  respond req payload resp =
      info H (
        payload_repr req.post payload
        ++ response_msg req.url resp.status (unwrap_or (H.canonical_reason resp.status) [])
            (body_of resp.body))
      >> pure (some (resp.status, body_of resp.body))

  unfoldable pub exhausted : Text → Option Text → Io H Response
  exhausted url last_err =
      error H (max_retries_msg url (unwrap_or last_err [])) >> debug H (dummy_msg url) >> pure none

  -- What is done about one answer; `next` goes on with the last error.
  unfoldable pub on_answer :
      List ℕ
      → HttpRequest H.Json
      → Option H.Json
      → (Option Text → Io H Response)
      → Result HttpResponse Text
      → Io H Response
  on_answer enforce req payload next (ok resp) =
      if contains enforce resp.status
      then next (some (too_many_msg resp.status))
      else respond req payload resp
  on_answer enforce req payload next (err e) = next (some e)

  module _ (c : HttpCfg H.F64) (enforce : List ℕ) (client : H.Client) (req : HttpRequest H.Json)
      (payload : Option H.Json) where
    -- `for attempt in 0..attempts`, with the number of rounds left.
    unfoldable pub attempt_from : ℕ → ℕ → Option Text → Io H Response
    attempt_from zero attempt last_err w = exhausted req.url last_err w
    attempt_from (suc left) attempt last_err w =
        let (answer, w') = send client req (pause H c.backoff_factor attempt w).1 in
        on_answer enforce req payload (attempt_from left (attempt + 1)) answer w'

  -- `retry_total + 1` is a `u32` sum, which wraps in a release build.
  unfoldable pub attempts : HttpCfg H.F64 → ℕ
  attempts c = (c.retry_total + 1) % u32_limit

  -- With the client that the builder returned.
  unfoldable pub with_client :
      HttpCfg H.F64
      → List ℕ
      → HttpRequest H.Json
      → Option H.Json
      → Result H.Client Text
      → Io H Response
  with_client c enforce req payload (err e) =
      error H (builder_msg req.url e) >> debug H (dummy_msg req.url) >> pure none
  with_client c enforce req payload (ok client) =
      attempt_from c enforce client req payload (attempts c) 0 none

  -- The body of a POST is the payload, or null.
  unfoldable pub request_of : Text → Bool → Option Text → Option H.Json → HttpRequest H.Json
  request_of url post auth payload = record {
    post = post;
    url = url;
    authorization = auth;
    json = if post then some (unwrap_or payload H.json_null) else none;
  }

  unfoldable pub is_get : Option Text → Bool
  is_get none = true
  is_get (some m) = m == ascii "GET"

  unfoldable pub request_to :
      HttpCfg H.F64 → Text → Option Text → Bool → Option H.Json → Option Text → Io H Response
  request_to c url method enable_5xx payload auth w =
      let post = is_text method (ascii "POST") in
      if not (is_get method) && not post
      then (warning H (invalid_method_msg (unwrap_or method (ascii "GET"))) >> pure none) w
      else (let (client, n) = H.build_client c.skip_tls_verify c.timeout w.net in
          with_client c (enforce_status enable_5xx) (request_of url post auth payload) payload
            client (record w { net = n }))

  unfoldable pub request_url :
      HttpCfg H.F64 → Option Text → Option Text → Bool → Option H.Json → Option Text → Io H Response
  request_url c none method enable_5xx payload auth = warning H no_url_msg >> pure none
  request_url c (some url) method enable_5xx payload auth =
      request_to c url method enable_5xx payload auth

  unfoldable pub request :
      HttpCfg H.F64 → Option Text → Option Text → Bool → Option H.Json → Io H Response
  request c url method enable_5xx payload =
      basic_auth_header H c >>= λ auth. request_url c url method enable_5xx payload auth

-- Content only for a status below 400.
unfoldable pub body_if_ok : Response → Bytes
body_if_ok none = []
body_if_ok (some (status, body)) = if ltb status 400 then body else []
