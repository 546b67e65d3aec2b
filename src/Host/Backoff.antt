-- ===== src/Host/Backoff.antt =====
-- The pause before a retry, which src/kubeapi.rs and src/http.rs compute alike: none before the
-- first retry, then factor * 2^(attempt - 1) seconds, at most 120.
use k8s_sidecar_rs.Base.{ℕ, ◌-◌, ltb, if◌then◌else◌}
use k8s_sidecar_rs.Host.World.{Host, slept}
use k8s_sidecar_rs.Host.Io.{Io, tell}

module _ (H : Host) (factor : H.F64) where
  unfoldable pub delay : ℕ → H.F64
  delay attempt =
      H.f64_min (H.f64_mul factor (H.f64_powi (H.f64_literal 2 1) (attempt - 1)))
        (H.f64_literal 120 1)

  unfoldable pub pause : ℕ → Io H Unit
  pause attempt w = if ltb 1 attempt then tell H (slept (delay attempt)) w else (tt, w)
