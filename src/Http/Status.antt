-- ===== src/Http/Status.antt =====
-- src/http.rs: which responses `request` hands on, and what content comes of them.
use k8s_sidecar_rs.Base.{
  Text, Bytes, ascii, ℕ, zero, suc, ◌+◌, ◌<◌, Bool, false, not, ◌&&◌, Option, none, some, List, [],
  contains, Result, ok, err, ◌≡◌, ◌≢◌, refl, arith, inl, inr, Bool-cases, nat_eq,
}
use k8s_sidecar_rs.Host.World.{Host, World, HttpRequest, HttpResponse}
use k8s_sidecar_rs.Host.Io.{Io}
use k8s_sidecar_rs.Http.Auth.{HttpCfg, is_text}
use k8s_sidecar_rs.Http.Request.{
  Response, on_answer, respond, exhausted, attempt_from, attempts, with_client, request_to,
  request_url, request, enforce_status, request_of, is_get, body_if_ok, too_many_msg,
}

-- A response that is none of the enforced statuses, or no response.
abbrev Passes : List ℕ → Response → Type 0
Passes enforce none = Unit
Passes enforce (some (status, body)) = contains enforce status ≡ false

module _ (H : Host) where
  module _ (c : HttpCfg H.F64) (enforce : List ℕ) (client : H.Client) (req : HttpRequest H.Json)
      (payload : Option H.Json) where
    on_answer-Passes :
        (next : Option Text → Io H Response)
        → ((e : Option Text) (w : World H) → Passes enforce (next e w).0)
        → (answer : Result HttpResponse Text) (w : World H)
        → Passes enforce (on_answer H enforce req payload next answer w).0
    unfolding on_answer respond
    on_answer-Passes next passes (err e) w = passes (some e) w
    on_answer-Passes next passes (ok resp) w = elim (Bool-cases (contains enforce resp.status)) [
      | inl again ↦ rw again (passes (some (too_many_msg resp.status)) w)
      | inr done ↦ rw done done
    ]

    attempt_from-Passes :
        (left attempt : ℕ) (last_err : Option Text) (w : World H)
        → Passes enforce (attempt_from H c enforce client req payload left attempt last_err w).0
    unfolding attempt_from exhausted
    attempt_from-Passes zero attempt last_err w = tt
    attempt_from-Passes (suc left) attempt last_err w =
        on_answer-Passes (attempt_from H c enforce client req payload left (attempt + 1))
          (attempt_from-Passes left (attempt + 1)) _ _

  with_client-Passes :
      (c : HttpCfg H.F64) (enforce : List ℕ) (req : HttpRequest H.Json) (payload : Option H.Json)
      (client : Result H.Client Text) (w : World H)
      → Passes enforce (with_client H c enforce req payload client w).0
  unfolding with_client
  with_client-Passes c enforce req payload (err e) w = tt
  with_client-Passes c enforce req payload (ok client) w =
      attempt_from-Passes c enforce client req payload (attempts H c) 0 none w

  request_to-Passes :
      (c : HttpCfg H.F64) (url : Text) (method : Option Text) (enable_5xx : Bool)
      (payload : Option H.Json) (auth : Option Text) (w : World H)
      → Passes (enforce_status enable_5xx) (request_to H c url method enable_5xx payload auth w).0
  unfolding request_to
  request_to-Passes c url method enable_5xx payload auth w =
      let (client, n) = H.build_client c.skip_tls_verify c.timeout w.net in
      let post = is_text method (ascii "POST") in
      let req = request_of H url post auth payload in
      elim (Bool-cases (not (is_get H method) && not post)) [
        | inl invalid ↦ rw invalid tt
        | inr valid ↦ rw valid (
            with_client-Passes c (enforce_status enable_5xx) req payload client
              (record w { net = n }))
      ]

  request-Passes :
      (c : HttpCfg H.F64) (url method : Option Text) (enable_5xx : Bool) (payload : Option H.Json)
      (w : World H)
      → Passes (enforce_status enable_5xx) (request H c url method enable_5xx payload w).0
  unfolding request request_url
  request-Passes c none method enable_5xx payload w = tt
  request-Passes c (some url) method enable_5xx payload w =
      request_to-Passes c url method enable_5xx payload _ _

  -- Without ENABLE_5XX, a response that `request` hands on has none of the statuses 500, 502, 503
  -- and 504.
  pub request-status :
      (c : HttpCfg H.F64) (url method : Option Text) (payload : Option H.Json) (w : World H)
      (status : ℕ) (body : Bytes)
      → (request H c url method false payload w).0 ≡ some (status, body)
      → (status ≢ 500) × (status ≢ 502) × (status ≢ 503) × (status ≢ 504)
  unfolding contains enforce_status
  request-status c url method payload w status body h =
      let passes = rw h at (request-Passes c url method false payload w) in ground arith

  body_if_ok_lem :
      (r : Response)
      → body_if_ok r ≢ []
      → (status : ℕ) × (status < 400) × (r ≡ some (status, body_if_ok r))
  unfolding body_if_ok
  body_if_ok_lem none h = absurd (h refl)
  body_if_ok_lem (some (status, body)) h = (status, ground arith, ground arith)

  -- When the content that a caller takes from `request` is not empty, a response with a status
  -- below 400 was obtained, and the content is its body.
  pub body_if_ok-request :
      (c : HttpCfg H.F64) (url method : Option Text) (enable_5xx : Bool) (payload : Option H.Json)
      (w : World H)
      → body_if_ok (request H c url method enable_5xx payload w).0 ≢ []
      → (status : ℕ) × (status < 400)
        × ((request H c url method enable_5xx payload w).0
            ≡ some (status, body_if_ok (request H c url method enable_5xx payload w).0))
  body_if_ok-request c url method enable_5xx payload w h =
      body_if_ok_lem (request H c url method enable_5xx payload w).0 h
