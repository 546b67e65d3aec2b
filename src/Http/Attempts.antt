-- ===== src/Http/Attempts.antt =====
-- src/http.rs: how many requests are sent.
use k8s_sidecar_rs.Base.{
  Text, ℕ, zero, suc, ◌+◌, ◌≤◌, Option, none, some, List, contains, Result, ok, err, ◌≡◌, ap, ◌∙◌,
  ◌%◌, arith, inl, inr, Bool-cases, nat_eq,
}
use k8s_sidecar_rs.Base.Number.{u32_limit}
use k8s_sidecar_rs.Host.World.{Host, World, HttpRequest, HttpResponse}
use k8s_sidecar_rs.Host.Io.{Io}
use k8s_sidecar_rs.Host.Backoff.{pause}
use k8s_sidecar_rs.Http.Auth.{HttpCfg}
use k8s_sidecar_rs.Http.Request.{
  Response, send, on_answer, respond, exhausted, attempt_from, attempts, with_client, too_many_msg,
}

-- `count` counts the requests that reach the network.
pub record Counts (H : Host) (count : H.Net → ℕ) : Type 0 where
  pub by_send :
      (client : H.Client) (req : HttpRequest H.Json) (n : H.Net)
      → count (H.send client req n).1 ≡ count n + 1

module _ (H : Host) (count : H.Net → ℕ) (counts : Counts H count) where
  net-pause : (b : H.F64) (n : ℕ) (w : World H) → (pause H b n w).1.net ≡ w.net
  unfolding pause
  net-pause b n w = ground arith

  module _ (c : HttpCfg H.F64) (enforce : List ℕ) (client : H.Client) (req : HttpRequest H.Json)
      (payload : Option H.Json) where
    -- At most the rounds left; all of them if no response is handed on.
    abbrev Sends : ℕ → World H → Response × World H → Type 0
    Sends left w (r, w') =
        (count w'.net ≤ count w.net + left) × (r ≡ none → count w'.net ≡ count w.net + left)

    on_answer-Sends :
        (left : ℕ) (next : Option Text → Io H Response)
        → ((e : Option Text) (w : World H) → Sends left w (next e w))
        → (answer : Result HttpResponse Text) (w : World H)
        → Sends left w (on_answer H enforce req payload next answer w)
    unfolding on_answer respond
    on_answer-Sends left next sends (err e) w = sends (some e) w
    on_answer-Sends left next sends (ok resp) w = elim (Bool-cases (contains enforce resp.status)) [
      | inl again ↦ rw again (sends (some (too_many_msg resp.status)) w)
      | inr done ↦ rw done (omega arith, λ e. cc)
    ]

    Sends-suc :
        (left : ℕ) (w w₁ : World H) (p : Response × World H)
        → count w₁.net ≡ count w.net + 1
        → Sends left w₁ p
        → Sends (suc left) w p
    Sends-suc left w w₁ p e s = (omega arith, λ n. ground (arith, s.1 n))

    attempt_from-Sends :
        (left attempt : ℕ) (last_err : Option Text) (w : World H)
        → Sends left w (attempt_from H c enforce client req payload left attempt last_err w)
    unfolding attempt_from exhausted
    attempt_from-Sends zero attempt last_err w = (omega arith, λ _. omega arith)
    attempt_from-Sends (suc left) attempt last_err w =
        let step = send H client req (pause H c.backoff_factor attempt w).1 in
        let next = attempt_from H c enforce client req payload left (attempt + 1) in
        Sends-suc left w step.1 (on_answer H enforce req payload next step.0 step.1)
          (counts.by_send client req (pause H c.backoff_factor attempt w).1.net
            ∙ ap (λ n. count n + 1) (net-pause c.backoff_factor attempt w))
          (on_answer-Sends left next (attempt_from-Sends left (attempt + 1)) step.0 step.1)

  with_client_lem :
      (c : HttpCfg H.F64) (enforce : List ℕ) (req : HttpRequest H.Json) (payload : Option H.Json)
      (client : H.Client) (w : World H)
      → let (r, w') = with_client H c enforce req payload (ok client) w in
        let n = (c.retry_total + 1) % u32_limit in
        (count w'.net ≤ count w.net + n) × (r ≡ none → count w'.net ≡ count w.net + n)
  unfolding with_client attempts
  with_client_lem c enforce req payload client w =
      attempt_from-Sends c enforce client req payload ((c.retry_total + 1) % u32_limit) 0 none w

  -- With a client, at most REQ_RETRY_TOTAL + 1 requests are sent, the sum taken modulo 2^32.
  -- `count` is any measure of the network that each request raises by one.
  pub with_client-sends :
      (c : HttpCfg H.F64) (enforce : List ℕ) (req : HttpRequest H.Json) (payload : Option H.Json)
      (client : H.Client) (w : World H)
      → count (with_client H c enforce req payload (ok client) w).1.net
        ≤ count w.net + (c.retry_total + 1) % u32_limit
  with_client-sends c enforce req payload client w =
      (with_client_lem c enforce req payload client w).0

  -- With a client, if no response is handed on, exactly REQ_RETRY_TOTAL + 1 requests have been
  -- sent, the sum taken modulo 2^32. `count` is any measure of the network that each request
  -- raises by one.
  pub with_client-exhausted :
      (c : HttpCfg H.F64) (enforce : List ℕ) (req : HttpRequest H.Json) (payload : Option H.Json)
      (client : H.Client) (w : World H)
      → (with_client H c enforce req payload (ok client) w).0 ≡ none
      → count (with_client H c enforce req payload (ok client) w).1.net
        ≡ count w.net + (c.retry_total + 1) % u32_limit
  with_client-exhausted c enforce req payload client w =
      (with_client_lem c enforce req payload client w).1
