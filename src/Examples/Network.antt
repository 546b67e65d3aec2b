-- ===== src/Examples/Network.antt =====
-- The theorems about requests and retries at concrete inputs.
use k8s_sidecar_rs.Base.{
  Text, ascii, ℕ, ◌+◌, ◌%◌, ◌≤◌, none, some, List, [], ◌∷◌, ◌≡◌, ◌≢◌, ok, err, refl, arith, nat_eq,
  list_eq, list_beq, contains, Result,
}
use k8s_sidecar_rs.Base.Number.{u32_limit}
use k8s_sidecar_rs.Kubeapi.Items.{KubeError}
use k8s_sidecar_rs.Kubeapi.Retry
use k8s_sidecar_rs.Kubeapi.Retry.{
  with_transport_retry, retry_from, gave_up, with_transport_retry-count,
  with_transport_retry-gave_up, with_transport_retry_answered,
}
use k8s_sidecar_rs.Host.World.{World, HttpResponse}
use k8s_sidecar_rs.Host.Env.{env_u32}
use k8s_sidecar_rs.Host.Backoff.{pause, delay}
use k8s_sidecar_rs.Host.Io.{Act}
use k8s_sidecar_rs.Host.Memory.{host, Script, quiet, no_reply}
use k8s_sidecar_rs.Http.Auth.{
  basic_auth_header, fetch_basic_auth_credentials, header_for, override_by,
}
use k8s_sidecar_rs.Http.Request.{
  request, request_url, request_to, request_of, is_get, with_client, attempts, attempt_from,
  on_answer, respond, exhausted, body_if_ok, enforce_status,
}
use k8s_sidecar_rs.Http.Status.{request-status}
use k8s_sidecar_rs.Http.Attempts
use k8s_sidecar_rs.Http.Attempts.{with_client-sends, with_client-exhausted}
use k8s_sidecar_rs.Examples.Data.{cfg, reply, serving, start, get_request}

abbrev calls : Script → ℕ
calls n = n.calls

next-counts :
    (n : Script) (l : List (Result HttpResponse Text))
    → calls (k8s_sidecar_rs.Host.Memory.next_response n l).1 ≡ calls n + 1
next-counts n [] = refl
next-counts n (r ∷ rs) = refl

abbrev counts : Attempts.Counts host calls
counts = record { by_send = λ client req n. next-counts n n.responses }

with_client-sends_example :
    calls
      (with_client host cfg
        (500 ∷ [])
        get_request
        none
        (ok tt)
        (serving (reply 500 [] ∷ reply 200 [] ∷ []))).1.net
    ≤ 0 + (cfg.retry_total + 1) % u32_limit
with_client-sends_example =
    with_client-sends host calls counts cfg (500 ∷ []) get_request none tt
      (serving (reply 500 [] ∷ reply 200 [] ∷ []))

with_client-exhausted_example :
    calls
      (with_client host cfg (500 ∷ []) get_request none (ok tt) (serving (reply 500 [] ∷ []))).1.net
    ≡ 0 + (cfg.retry_total + 1) % u32_limit
unfolding with_client attempts attempt_from on_answer respond exhausted contains pause delay
with_client-exhausted_example =
    with_client-exhausted host calls counts cfg (500 ∷ []) get_request none tt
      (serving (reply 500 [] ∷ [])) refl

abbrev answering : World host
answering = serving (reply 503 (ascii "b") ∷ reply 200 (ascii "a") ∷ [])

request-status_example :
    ◌≢◌ {A = ℕ} 200 500 × ◌≢◌ {A = ℕ} 200 502 × ◌≢◌ {A = ℕ} 200 503 × ◌≢◌ {A = ℕ} 200 504
unfolding request request_url request_to request_of is_get with_client attempts attempt_from
    on_answer respond contains pause delay enforce_status basic_auth_header
    fetch_basic_auth_credentials header_for body_if_ok list_beq override_by
request-status_example =
    request-status host cfg (some (ascii "u")) none none answering 200 (ascii "a") refl

-- An operation that fails in transport, and counts its calls.
abbrev op : Act host KubeError Unit
op w = (err no_reply, record w { net = record w.net { calls = w.net.calls + 1 } })

abbrev calls_made : World host → ℕ
calls_made w = w.net.calls

pause-net : (b n : ℕ) (w : World host) → calls_made (pause host b n w).1 ≡ calls_made w
unfolding pause
pause-net b n w = ground arith

abbrev op_counts : Retry.Counts host op calls_made
op_counts = record { by_op = λ w. refl; by_pause = pause-net }

with_transport_retry-count_example :
    (calls_made start + 1 ≤ calls_made (with_transport_retry host op start).1)
    × (calls_made (with_transport_retry host op start).1
        ≤ calls_made start + env_u32 host (ascii "REQ_RETRY_TOTAL") 5 + 1)
with_transport_retry-count_example = with_transport_retry-count host op calls_made op_counts start
