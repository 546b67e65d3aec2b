-- ===== src/Http/Frame.antt =====
-- src/http.rs: a request touches the network and the log, and nothing else.
use k8s_sidecar_rs.Base.{
  Text, ascii, not, ◌&&◌, ℕ, zero, suc, ◌+◌, Bool, Option, none, some, List, Result, ok, err, ◌≡◌,
  refl, ◌∙◌, arith, inl, inr, Bool-cases, nat_eq,
}
use k8s_sidecar_rs.Host.World.{
  Host, World, HttpRequest, HttpResponse, ErrorKind, not_found, permission_denied, IoError,
}
use k8s_sidecar_rs.Host.Io.{Io}
use k8s_sidecar_rs.Host.Backoff.{pause}
use k8s_sidecar_rs.Http.Auth.{
  HttpCfg, is_text, read_file_content, unreadable, trimmed, override_by,
  fetch_basic_auth_credentials, basic_auth_header,
}
use k8s_sidecar_rs.Http.Request.{
  Response, on_answer, respond, exhausted, attempt_from, attempts, with_client, request_to,
  request_url, request, enforce_status, request_of, is_get, too_many_msg,
}
use k8s_sidecar_rs.Resources.Cache.{Maps}
use k8s_sidecar_rs.Health.Status.{Health}

module _ (H : Host) where
  -- What the sidecar keeps on this side of the network.
  abbrev pub Local : Type 0
  Local = H.Disk × Maps × Health

  abbrev pub local : World H → Local
  local w = (w.disk, w.maps, w.health)

  local-unreadable :
      (path : Text) (e : IoError) (k : ErrorKind) (w : World H)
      → local (unreadable H path e k w).1 ≡ local w
  local-unreadable path e not_found w = refl
  local-unreadable path e permission_denied w = refl
  local-unreadable path e _ w = refl

  local-trimmed :
      (path : Text) (r : Result Text IoError) (w : World H) → local (trimmed H path r w).1 ≡ local w
  local-trimmed path (ok s) w = refl
  local-trimmed path (err e) w = local-unreadable path e e.kind w

  local-override_by :
      (file value : Option Text) (w : World H) → local (override_by H file value w).1 ≡ local w
  unfolding override_by read_file_content
  local-override_by none value w = refl
  local-override_by (some f) value w = local-trimmed f _ w

  local-basic_auth_header :
      (c : HttpCfg H.F64) (w : World H) → local (basic_auth_header H c w).1 ≡ local w
  unfolding basic_auth_header fetch_basic_auth_credentials
  local-basic_auth_header c w = local-override_by _ _ _ ∙ local-override_by _ _ w

  local-pause : (b : H.F64) (n : ℕ) (w : World H) → local (pause H b n w).1 ≡ local w
  unfolding pause
  local-pause b n w = ground arith

  module _ (c : HttpCfg H.F64) (enforce : List ℕ) (client : H.Client) (req : HttpRequest H.Json)
      (payload : Option H.Json) where
    local-on_answer :
        (next : Option Text → Io H Response)
        → ((e : Option Text) (w : World H) → local (next e w).1 ≡ local w)
        → (answer : Result HttpResponse Text) (w : World H)
        → local (on_answer H enforce req payload next answer w).1 ≡ local w
    unfolding on_answer respond
    local-on_answer next keeps (err e) w = keeps (some e) w
    local-on_answer next keeps (ok resp) w =
        ground (arith, keeps (some (too_many_msg resp.status)) w)

    local-attempt_from :
        (left attempt : ℕ) (last_err : Option Text) (w : World H)
        → local (attempt_from H c enforce client req payload left attempt last_err w).1 ≡ local w
    unfolding attempt_from exhausted
    local-attempt_from zero attempt last_err w = refl
    local-attempt_from (suc left) attempt last_err w =
        local-on_answer (attempt_from H c enforce client req payload left (attempt + 1))
          (local-attempt_from left (attempt + 1)) _ _
        ∙ local-pause c.backoff_factor attempt w

  local-with_client :
      (c : HttpCfg H.F64) (enforce : List ℕ) (req : HttpRequest H.Json) (payload : Option H.Json)
      (client : Result H.Client Text) (w : World H)
      → local (with_client H c enforce req payload client w).1 ≡ local w
  unfolding with_client
  local-with_client c enforce req payload (err e) w = refl
  local-with_client c enforce req payload (ok client) w =
      local-attempt_from c enforce client req payload (attempts H c) 0 none w

  local-request_to :
      (c : HttpCfg H.F64) (url : Text) (method : Option Text) (enable_5xx : Bool)
      (payload : Option H.Json) (auth : Option Text) (w : World H)
      → local (request_to H c url method enable_5xx payload auth w).1 ≡ local w
  unfolding request_to
  local-request_to c url method enable_5xx payload auth w =
      let (client, n) = H.build_client c.skip_tls_verify c.timeout w.net in
      let post = is_text method (ascii "POST") in
      let req = request_of H url post auth payload in
      elim (Bool-cases (not (is_get H method) && not post)) [
        | inl invalid ↦ rw invalid refl
        | inr valid ↦ rw valid (
            local-with_client c (enforce_status enable_5xx) req payload client
              (record w { net = n }))
      ]

  -- A request leaves files, maps and health as they are.
  pub local-request :
      (c : HttpCfg H.F64) (url method : Option Text) (enable_5xx : Bool) (payload : Option H.Json)
      (w : World H)
      → local (request H c url method enable_5xx payload w).1 ≡ local w
  unfolding request request_url
  local-request c none method enable_5xx payload w = local-basic_auth_header c w
  local-request c (some url) method enable_5xx payload w =
      local-request_to c url method enable_5xx payload _ _ ∙ local-basic_auth_header c w
