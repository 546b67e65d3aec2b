-- ===== src/Kubeapi/Retry.antt =====
-- src/kubeapi.rs, with_transport_retry: transport failures are tried again, answers of the API
-- server are not.
use k8s_sidecar_rs.Base.{
  ascii, ℕ, zero, suc, ◌+◌, ◌≤◌, Bool, true, false, ◌≡◌, refl, Result, ok, err, arith,
  if◌then◌else◌,
}
use k8s_sidecar_rs.Kubeapi.Items.{KubeError, api, transport}
use k8s_sidecar_rs.Host.World.{Host, World}
use k8s_sidecar_rs.Host.Io.{Act}
use k8s_sidecar_rs.Host.Env.{env_u32, env_f64}
use k8s_sidecar_rs.Host.Backoff.{pause}

abbrev pub is_transport_error : KubeError → Bool
is_transport_error (api code reason) = false
is_transport_error (transport message) = true

module _ (H : Host) {A : Type 0} (op : Act H KubeError A) (backoff : H.F64) where
  -- `left` is `total - attempt`: the loop's test `attempt < total` is that it is not zero.
  unfoldable pub retry_from : ℕ → ℕ → Act H KubeError A
  retry_from zero attempt w = op w
  retry_from (suc left) attempt w =
      let (r, w') = op w in
      let next = retry_from left (attempt + 1) (pause H backoff (attempt + 1) w').1 in
      elim r [ ok v ↦ (ok v, w') | err e ↦ if is_transport_error e then next else (err e, w') ]

unfoldable pub with_transport_retry :
    (H : Host) {A : Type 0} → Act H KubeError A → Act H KubeError A
with_transport_retry H op =
    retry_from H op (env_f64 H (ascii "REQ_RETRY_BACKOFF_FACTOR") (H.f64_literal 11 10))
      (env_u32 H (ascii "REQ_RETRY_TOTAL") 5) 0

-- `count` counts the calls of `op`: each call adds one and a pause none.
pub record Counts (H : Host) {A : Type 0} (op : Act H KubeError A) (count : World H → ℕ)
    : Type 0 where
  pub by_op : (w : World H) → count (op w).1 ≡ count w + 1
  pub by_pause : (b : H.F64) (n : ℕ) (w : World H) → count (pause H b n w).1 ≡ count w

abbrev pub gave_up : {A : Type 0} → Result A KubeError → Bool
gave_up (ok v) = false
gave_up (err e) = is_transport_error e

module _ (H : Host) {A : Type 0} (op : Act H KubeError A) (count : World H → ℕ)
    (c : Counts H op count) where
  retry_from-count :
      (backoff : H.F64) (left attempt : ℕ) (w : World H)
      → let (r, w') = retry_from H op backoff left attempt w in
        (count w + 1 ≤ count w')
        × (count w' ≤ count w + left + 1)
        × (gave_up r ≡ true → count w' ≡ count w + left + 1)
  unfolding retry_from
  retry_from-count backoff zero attempt w =
      (omega (arith, c.by_op w), omega (arith, c.by_op w), λ _. omega (arith, c.by_op w))
  retry_from-count backoff (suc left) attempt w =
      let w' = (pause H backoff (attempt + 1) (op w).1).1 in
      ground (
        arith,
        c.by_op w,
        c.by_pause backoff (attempt + 1) (op w).1,
        retry_from-count backoff left (attempt + 1) w',
      )

  with_transport_retry_lem :
      (w : World H)
      → let total = env_u32 H (ascii "REQ_RETRY_TOTAL") 5 in
        let (r, w') = with_transport_retry H op w in
        (count w + 1 ≤ count w')
        × (count w' ≤ count w + total + 1)
        × (gave_up r ≡ true → count w' ≡ count w + total + 1)
  unfolding with_transport_retry
  with_transport_retry_lem w =
      retry_from-count (env_f64 H (ascii "REQ_RETRY_BACKOFF_FACTOR") (H.f64_literal 11 10))
        (env_u32 H (ascii "REQ_RETRY_TOTAL") 5) 0 w

  -- The operation is called at least once and at most REQ_RETRY_TOTAL + 1 times. `count` is any
  -- measure of the world that each call raises by one and a pause leaves alone.
  pub with_transport_retry-count :
      (w : World H)
      → (count w + 1 ≤ count (with_transport_retry H op w).1)
        × (count (with_transport_retry H op w).1
            ≤ count w + env_u32 H (ascii "REQ_RETRY_TOTAL") 5 + 1)
  with_transport_retry-count w = let p = with_transport_retry_lem w in (p.0, p.1)

  -- When the outcome is a transport error, the operation has been called exactly REQ_RETRY_TOTAL +
  -- 1 times, by any measure that each call raises by one and a pause leaves alone.
  pub with_transport_retry-gave_up :
      (w : World H)
      → gave_up (with_transport_retry H op w).0 ≡ true
      → count (with_transport_retry H op w).1 ≡ count w + env_u32 H (ascii "REQ_RETRY_TOTAL") 5 + 1
  with_transport_retry-gave_up w = (with_transport_retry_lem w).2

module _ (H : Host) {A : Type 0} (op : Act H KubeError A) where
  retry_from_answered :
      (backoff : H.F64) (left attempt : ℕ) (w : World H)
      → gave_up (op w).0 ≡ false
      → retry_from H op backoff left attempt w ≡ op w
  unfolding retry_from
  retry_from_answered backoff zero attempt w h = refl
  retry_from_answered backoff (suc left) attempt w h = ground arith

  -- When the first call succeeds or is refused by the API server, its outcome is the whole run's,
  -- with no retry.
  pub with_transport_retry_answered :
      (w : World H) → gave_up (op w).0 ≡ false → with_transport_retry H op w ≡ op w
  unfolding with_transport_retry
  with_transport_retry_answered w h = retry_from_answered _ _ 0 w h
